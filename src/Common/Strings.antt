-- ===== src/Common/Strings.antt =====
-- The `str` methods that the code uses, on lists of bytes.
use Prim.Native.Nat.{ℕ}
use mathlib.Core.Path.{◌≡◌, refl, ap}
use mathlib.Core.Logic.{◌↔◌, inl, inr}
use mathlib.Core.Bool.{Bool, true, false, ◌&&◌, ◌||◌}
use mathlib.Core.List.{List, [], ◌∷◌, ◌++◌}
use mathlib.Core.Option.{Option, none, some}
use native.Mathlib.Omega.{arith}
use circus.Common.Tests.{◌==◌, ||-eq-true, if◌then◌else◌}
use circus.Common.Text.{Bytes}

pub bytes_eq : Bytes → Bytes → Bool
bytes_eq [] [] = true
bytes_eq (a ∷ s) (b ∷ t) = a == b && bytes_eq s t
bytes_eq _ _ = false

bytes_eq_sound : (s t : Bytes) → bytes_eq s t ≡ true → s ≡ t
unfolding bytes_eq
bytes_eq_sound [] [] h = refl
bytes_eq_sound [] (b ∷ t) h = cc
bytes_eq_sound (a ∷ s) [] h = cc
bytes_eq_sound (a ∷ s) (b ∷ t) h = ground (arith, bytes_eq_sound s t)

pub bytes_eq_refl : (s : Bytes) → bytes_eq s s ≡ true
unfolding bytes_eq
bytes_eq_refl [] = refl
bytes_eq_refl (a ∷ s) = ground (arith, bytes_eq_refl s)

pub bytes_eq_iff : (s t : Bytes) → (bytes_eq s t ≡ true) ↔ (s ≡ t)
bytes_eq_iff s t = (bytes_eq_sound s t, λ e. rw e (bytes_eq_refl t))

-- `strip_prefix`.
unfoldable pub strip_prefix : Bytes → Bytes → Option Bytes
strip_prefix [] s = some s
strip_prefix (p ∷ ps) [] = none
strip_prefix (p ∷ ps) (c ∷ s) = if p == c then strip_prefix ps s else none

unfoldable pub starts_with : Bytes → Bytes → Bool
starts_with [] s = true
starts_with (p ∷ ps) [] = false
starts_with (p ∷ ps) (c ∷ s) = p == c && starts_with ps s

pub strip_prefix-eq-some : (p s r : Bytes) → (strip_prefix p s ≡ some r) ↔ (s ≡ p ++ r)
unfolding strip_prefix
strip_prefix-eq-some [] s r = (λ e. ground arith, λ e. ground arith)
strip_prefix-eq-some (a ∷ p) [] r = (λ e. cc, λ e. cc)
strip_prefix-eq-some (a ∷ p) (c ∷ s) r =
    let (sound, complete) = strip_prefix-eq-some p s r in (λ e. ground arith, λ e. ground arith)

pub starts_with_iff : (p s : Bytes) → (starts_with p s ≡ true) ↔ ((r : Bytes) × (s ≡ p ++ r))
unfolding starts_with
starts_with_iff [] s = (λ e. (s, refl), λ e. refl)
starts_with_iff (a ∷ p) [] = (λ e. cc, λ (r, e). cc)
starts_with_iff (a ∷ p) (c ∷ s) =
    let (sound, complete) = starts_with_iff p s in
    (
      λ e. let (r, k) = sound (ground arith) in (r, ground arith),
      λ (r, e). ground (arith, complete (r, ground arith)),
    )

-- `contains` of a text.
unfoldable pub contains_text : Bytes → Bytes → Bool
unfolding starts_with
contains_text t [] = starts_with t []
contains_text t (c ∷ s) = starts_with t (c ∷ s) || contains_text t s

starts_with-contains_text : (t s : Bytes) → starts_with t s ≡ true → contains_text t s ≡ true
unfolding contains_text
starts_with-contains_text t [] h = h
starts_with-contains_text t (c ∷ s) h = ground arith

contains_text_middle : (t a b : Bytes) → contains_text t (a ++ (t ++ b)) ≡ true
unfolding contains_text
contains_text_middle t [] b =
    starts_with-contains_text t (t ++ b) ((starts_with_iff t (t ++ b)).1 (b, refl))
contains_text_middle t (c ∷ a) b = (||-eq-true _ _).1 (inr (contains_text_middle t a b))

contains_text_sound : (t s : Bytes) → contains_text t s ≡ true → (a b : Bytes) × (s ≡ a ++ (t ++ b))
unfolding contains_text
contains_text_sound t [] e = let (r, k) = (starts_with_iff t []).0 e in ([], r, k)
contains_text_sound t (c ∷ s) e =
    elim ((||-eq-true (starts_with t (c ∷ s)) (contains_text t s)).0 e) [
      | inl h ↦ let (r, k) = (starts_with_iff t (c ∷ s)).0 h in ([], r, k)
      | inr h ↦ let (a, b, k) = contains_text_sound t s h in (c ∷ a, b, ap (λ x. c ∷ x) k)
    ]

-- `contains` finds a text exactly where it stands somewhere inside.
pub contains_text_iff :
    (t s : Bytes) → (contains_text t s ≡ true) ↔ ((a b : Bytes) × (s ≡ a ++ (t ++ b)))
contains_text_iff t s = (contains_text_sound t s, λ (a, b, e). rw e (contains_text_middle t a b))

-- `split` at a character: there is always at least one part.
abbrev onto_head : ℕ → List Bytes → List Bytes
onto_head c [] = (c ∷ []) ∷ []
onto_head c (p ∷ ps) = (c ∷ p) ∷ ps

unfoldable pub split : ℕ → Bytes → List Bytes
split sep [] = [] ∷ []
split sep (c ∷ s) = let rest = split sep s in if c == sep then [] ∷ rest else onto_head c rest
