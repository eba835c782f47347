-- ===== src/Common/Text.antt =====
-- Texts: the native `String` where whole texts are compared, a list of bytes where they are walked.
use Prim.Native.Nat.{ℕ, zero, suc, ◌/◌, ◌%◌}
use Prim.Native.Char.{code}
use Prim.Native.String.{String, ◌++◌ as str_append}
use text.Mathlib.Text.{◌==◌ as str_eq}
use text.Mathlib.TextEquality.{eq_iff}
use mathlib.Core.Path.{◌≡◌, refl, subst}
use mathlib.Core.Logic.{◌↔◌, ◌⊎◌, inl, inr}
use mathlib.Core.Bool.{Bool, true, false, ◌&&◌}
use mathlib.Core.List.{List, [], ◌∷◌}
use native.Mathlib.Omega.{arith}
use circus.Common.Tests.{if◌then◌else◌, ltb, ◌==◌}

abbrev pub Bytes : Type 0
Bytes = List ℕ

-- The code points of a text, which are its bytes if it is ASCII.
abbrev pub codes : String → Bytes
codes String.[] = []
codes (String.◌∷◌ c s) = code c ∷ codes s

-- `Err(format!("invalid {what} '{value}'"))`.
pub data ParseError : Type 0 where
  invalid : String → String → ParseError

pub data Result {ℓ κ} (E : Type ℓ) (A : Type κ) : Type (ℓ ⊔ κ) where
  ok : A → Result E A
  err : E → Result E A

infixl 5 ◌>>=◌ ◌>>◌
abbrev pub ◌>>=◌ {ℓ κ} :
    {E : Type 0} {A : Type ℓ} {B : Type κ} → Result E A → (A → Result E B) → Result E B
ok a >>= f = f a
err e >>= f = err e

abbrev pub ◌>>◌ {κ} : {E : Type 0} {B : Type κ} → Result {0, 0} E Unit → Result E B → Result E B
m >> k = m >>= λ _. k

abbrev pub guard {ℓ} : {E : Type ℓ} → Bool → E → Result {ℓ, 0} E Unit
guard true e = ok tt
guard false e = err e

pub Result-cases {ℓ κ} :
    {E : Type ℓ} {A : Type κ} (r : Result E A) → ((a : A) × (r ≡ ok a)) ⊎ ((e : E) × (r ≡ err e))
Result-cases (ok a) = inl (a, refl)
Result-cases (err e) = inr (e, refl)

-- A `match` on a text: the arms are tried in order, the last arm refuses.
module _ {A : Type 0} where
  abbrev pub match_arms : String → List (String × A) → String → Result ParseError A
  match_arms what [] s = err (invalid what s)
  match_arms what ((k, a) ∷ arms) s = if str_eq s k then ok a else match_arms what arms s

  -- Each arm is keyed by the print of its value.
  abbrev pub keyed_by : (A → String) → List (String × A) → Bool
  keyed_by print [] = true
  keyed_by print ((k, a) ∷ arms) = str_eq (print a) k && keyed_by print arms

  pub match_arms_sound :
      (print : A → String) (what : String) (arms : List (String × A)) (s : String) (a : A)
      → keyed_by print arms ≡ true
      → match_arms what arms s ≡ ok a
      → print a ≡ s
  match_arms_sound print what [] s a keyed h = cc
  match_arms_sound print what ((k, b) ∷ arms) s a keyed h =
      ground (arith, eq_iff s k, eq_iff (print b) k, match_arms_sound print what arms s a)

  -- A parser that inverts a print accepts exactly what is printed.
  pub parse_iff :
      (print : A → String) (parse : String → Result ParseError A)
      → ((s : String) (a : A) → parse s ≡ ok a → print a ≡ s)
      → ((a : A) → parse (print a) ≡ ok a)
      → (s : String) (a : A) → (parse s ≡ ok a) ↔ (print a ≡ s)
  parse_iff print parse sound back s a = (sound s a, λ e. subst (λ t. parse t ≡ ok a) e (back a))

-- Texts put together, and `format!("{n}")` of a `usize`, which has at most twenty digits.
abbrev pub digit : ℕ → String
digit n =
    if n == 0
    then "0"
    else if n == 1
    then "1"
    else if n == 2
    then "2"
    else if n == 3
    then "3"
    else if n == 4
    then "4"
    else if n == 5
    then "5"
    else if n == 6
    then "6"
    else if n == 7
    then "7"
    else if n == 8
    then "8"
    else "9"

abbrev decimal_digits : ℕ → ℕ → String → String
decimal_digits zero n rest = rest
decimal_digits (suc fuel) n rest =
    let more = decimal_digits fuel (n / 10) (str_append (digit (n % 10)) rest) in
    if ltb n 10 then str_append (digit n) rest else more

unfoldable pub decimal : ℕ → String
decimal n = decimal_digits 20 n ""

-- `join`.
unfoldable pub join : String → List String → String
join sep [] = ""
join sep (s ∷ []) = s
join sep (s ∷ t ∷ rest) = str_append s (str_append sep (join sep (t ∷ rest)))
