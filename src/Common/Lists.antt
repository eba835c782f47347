-- ===== src/Common/Lists.antt =====
-- Lists measured and searched by functions that run, and predicates on lists by recursion.
use Prim.Native.Nat.{ℕ, zero, suc, ◌+◌, ◌≤◌}
use mathlib.Core.Path.{◌≡◌, refl, sym, ap, subst}
use mathlib.Core.Logic.{◌⊎◌, ◌↔◌, inl, inr}
use mathlib.Core.Bool.{Bool, true, false, ◌&&◌, ◌||◌}
use mathlib.Core.List.{List, [], ◌∷◌, ◌++◌, map}
use native.Mathlib.Omega.{arith}
use circus.Common.Tests.{if◌then◌else◌, Bool-cases}

module _ {ℓ} {A : Type ℓ} where
  abbrev pub length : List A → ℕ
  length [] = 0
  length (x ∷ xs) = suc (length xs)

  abbrev pub take : ℕ → List A → List A
  take zero xs = []
  take (suc n) [] = []
  take (suc n) (x ∷ xs) = x ∷ take n xs

  abbrev pub replicate : ℕ → A → List A
  replicate zero a = []
  replicate (suc n) a = a ∷ replicate n a

  -- `iter().any`, `iter().all` and `retain`.
  abbrev pub any : (A → Bool) → List A → Bool
  any p [] = false
  any p (x ∷ xs) = p x || any p xs

  abbrev pub all : (A → Bool) → List A → Bool
  all p [] = true
  all p (x ∷ xs) = p x && all p xs

  abbrev pub retain : (A → Bool) → List A → List A
  retain p [] = []
  retain p (x ∷ xs) = if p x then x ∷ retain p xs else retain p xs

  pub List-cases : (xs : List A) → (xs ≡ []) ⊎ ((x : A) × (rest : List A) × (xs ≡ x ∷ rest))
  List-cases [] = inl refl
  List-cases (x ∷ rest) = inr (x, rest, refl)

  pub length-append : (xs ys : List A) → length (xs ++ ys) ≡ length xs + length ys
  length-append [] ys = omega arith
  length-append (x ∷ xs) ys = omega (arith, length-append xs ys)

module _ {A : Type 0} where
  -- Membership as a sum, so that a proof says where the item stands.
  abbrev pub In : A → List A → Type 0
  In a [] = ⊥
  In a (x ∷ xs) = (a ≡ x) ⊎ In a xs

module _ {ℓ} {A : Type ℓ} where
  pub length-retain : (p : A → Bool) (xs : List A) → length (retain p xs) ≤ length xs
  length-retain p [] = omega arith
  length-retain p (x ∷ xs) = ground (arith, length-retain p xs)

module _ {ℓ κ} {A : Type ℓ} where
  abbrev pub All : (A → Type κ) → List A → Type κ
  All P [] = Unit
  All P (x ∷ xs) = P x × All P xs

  pub All-append : (P : A → Type κ) (xs ys : List A) → All P xs → All P ys → All P (xs ++ ys)
  All-append P [] ys _ hy = hy
  All-append P (x ∷ xs) ys (px, hx) hy = (px, All-append P xs ys hx hy)

module _ {A : Type 0} where
  pub In-append_iff : (a : A) (xs ys : List A) → In a (xs ++ ys) ↔ (In a xs ⊎ In a ys)
  In-append_iff a [] ys = (λ m. inr m, λ m. elim m [ inl k ↦ absurd k | inr k ↦ k ])
  In-append_iff a (x ∷ xs) ys = ground (arith, In-append_iff a xs ys)

  pub append_nil : (xs : List A) → xs ++ [] ≡ xs
  append_nil [] = refl
  append_nil (x ∷ xs) = ap (λ l. x ∷ l) (append_nil xs)

  pub append_assoc : (xs ys zs : List A) → (xs ++ ys) ++ zs ≡ xs ++ (ys ++ zs)
  append_assoc [] ys zs = refl
  append_assoc (x ∷ xs) ys zs = ap (λ l. x ∷ l) (append_assoc xs ys zs)

  abbrev pub NoRepeats : List A → Type 0
  NoRepeats [] = Unit
  NoRepeats (x ∷ xs) = (In x xs → ⊥) × NoRepeats xs

  pub NoRepeats-snoc :
      (a : A) (xs : List A) → (In a xs → ⊥) → NoRepeats xs → NoRepeats (xs ++ (a ∷ []))
  NoRepeats-snoc a [] new h = (λ m. m, tt)
  NoRepeats-snoc a (x ∷ xs) new (h, hs) = (
    λ m. elim ((In-append_iff x xs (a ∷ [])).0 m) [
      | inl k ↦ h k
      | inr k ↦ elim k [ inl e ↦ new (inl (sym e)) | inr z ↦ z ]
    ],
    NoRepeats-snoc a xs (λ m. new (inr m)) hs,
  )

  pub In-retain : (p : A → Bool) (x : A) (xs : List A) → In x xs → p x ≡ true → In x (retain p xs)
  In-retain p x [] m h = absurd m
  In-retain p x (y ∷ xs) m h = elim (Bool-cases (p y)) [
    | inl e ↦ rw e (elim m [ inl k ↦ inl k | inr k ↦ inr (In-retain p x xs k h) ])
    | inr e ↦ rw e (elim m [ inl k ↦ ground (arith, ap p k) | inr k ↦ In-retain p x xs k h ])
  ]

  pub retain-In : (p : A → Bool) (x : A) (xs : List A) → In x (retain p xs) → In x xs × (p x ≡ true)
  retain-In p x [] m = absurd m
  retain-In p x (y ∷ xs) m = elim (Bool-cases (p y)) [
    | inl e ↦ elim (rw e at m) [
      | inl k ↦ (inl k, ground (arith, ap p k))
      | inr k ↦ let (i, h) = retain-In p x xs k in (inr i, h)
    ]
    | inr e ↦ let (i, h) = retain-In p x xs (rw e at m) in (inr i, h)
  ]

  pub All-In {κ} : (P : A → Type κ) (x : A) (xs : List A) → All P xs → In x xs → P x
  All-In P x [] h m = absurd m
  All-In P x (y ∷ xs) (h, hs) (inl k) = subst P (sym k) h
  All-In P x (y ∷ xs) (h, hs) (inr k) = All-In P x xs hs k

  -- A filter that keeps every item of the list changes nothing.
  pub retain-All : (p : A → Bool) (xs : List A) → All (λ x. p x ≡ true) xs → retain p xs ≡ xs
  retain-All p [] h = refl
  retain-All p (x ∷ xs) (h, hs) = rw h (ap (λ ys. x ∷ ys) (retain-All p xs hs))

  pub any-eq-false : (p : A → Bool) (xs : List A) → any p xs ≡ false → All (λ x. p x ≡ false) xs
  any-eq-false p [] h = tt
  any-eq-false p (x ∷ xs) h = (ground arith, any-eq-false p xs (ground arith))

module _ {A B : Type 0} where
  pub In-map : (f : A → B) (x : A) (xs : List A) → In x xs → In (f x) (map f xs)
  In-map f x [] m = absurd m
  In-map f x (y ∷ xs) (inl k) = inl (ap f k)
  In-map f x (y ∷ xs) (inr k) = inr (In-map f x xs k)

  pub map-In : (f : A → B) (b : B) (xs : List A) → In b (map f xs) → (a : A) × In a xs × (b ≡ f a)
  map-In f b [] m = absurd m
  map-In f b (x ∷ xs) (inl k) = (x, inl refl, k)
  map-In f b (x ∷ xs) (inr k) = let (a, i, e) = map-In f b xs k in (a, inr i, e)
