-- ===== src/Common/Sort.antt =====
-- `slice::sort_by` as a stable insertion sort by a comparison, and what holds of it for any
-- comparison that refines a number.
use Prim.Native.Nat.{ℕ, ◌≤◌}
use mathlib.Core.Path.{◌≡◌, sym, subst}
use mathlib.Core.Logic.{◌⊎◌, ◌≢◌, inl, inr}
use mathlib.Core.List.{List, [], ◌∷◌}
use native.Mathlib.Omega.{arith}
use circus.Common.Lists.{In, All}
use circus.Common.Float.{Ordering, less, equal, greater}

-- `Ordering::then_with`.
abbrev pub then_with : Ordering → Ordering → Ordering
then_with equal o = o
then_with less o = less
then_with greater o = greater

module _ {A : Type 0} (cmp : A → A → Ordering) where
  -- An item goes before the first one that it is not greater than, so equal items keep their order.
  unfoldable pub place : A → List A → List A
  place x [] = x ∷ []
  place x (y ∷ ys) = let rest = y ∷ place x ys in elim (cmp x y) [ greater ↦ rest | _ ↦ x ∷ y ∷ ys ]

  unfoldable pub sort_by : List A → List A
  unfolding place
  sort_by [] = []
  sort_by (x ∷ xs) = place x (sort_by xs)

  -- The two ways in which an item is placed before a list that is not empty.
  place_cases :
      (x y : A) (ys : List A)
      → ((place x (y ∷ ys) ≡ y ∷ place x ys) × (cmp x y ≡ greater))
        ⊎ ((place x (y ∷ ys) ≡ x ∷ y ∷ ys) × (cmp x y ≢ greater))
  unfolding place
  place_cases x y ys = ground arith

  place-In : (a x : A) (ys : List A) → In a (place x ys) → In a (x ∷ ys)
  place-In a x [] m = unfold place in m
  place-In a x (y ∷ ys) m = elim (place_cases x y ys) [
    | inl (e, _) ↦ elim (subst (In a) e m) [
      | inl h ↦ inr (inl h)
      | inr h ↦ elim (place-In a x ys h) [ inl k ↦ inl k | inr k ↦ inr (inr k) ]
    ]
    | inr (e, _) ↦ subst (In a) e m
  ]

  In-place : (a x : A) (ys : List A) → In a (x ∷ ys) → In a (place x ys)
  In-place a x [] m = unfold place in m
  In-place a x (y ∷ ys) m = elim (place_cases x y ys) [
    | inl (e, _) ↦ subst (In a) (sym e) (elim m [
      | inl h ↦ inr (In-place a x ys (inl h))
      | inr h ↦ elim h [ inl k ↦ inl k | inr k ↦ inr (In-place a x ys (inr k)) ]
    ])
    | inr (e, _) ↦ subst (In a) (sym e) m
  ]

  -- Sorting keeps the items.
  pub sort_by-In : (a : A) (xs : List A) → In a (sort_by xs) → In a xs
  unfolding sort_by
  sort_by-In a [] m = m
  sort_by-In a (x ∷ xs) m = elim (place-In a x (sort_by xs) m) [
    | inl h ↦ inl h
    | inr h ↦ inr (sort_by-In a xs h)
  ]

  pub In-sort_by : (a : A) (xs : List A) → In a xs → In a (sort_by xs)
  unfolding sort_by
  In-sort_by a [] m = m
  In-sort_by a (x ∷ xs) (inl h) = In-place a x (sort_by xs) (inl h)
  In-sort_by a (x ∷ xs) (inr h) = In-place a x (sort_by xs) (inr (In-sort_by a xs h))

module _ {A : Type 0} (key : A → ℕ) where
  abbrev pub IsLeast : A → List A → Type 0
  IsLeast x = All (λ y. key x ≤ key y)

  abbrev pub Ascending : List A → Type 0
  Ascending [] = Unit
  Ascending (x ∷ xs) = IsLeast x xs × Ascending xs

  IsLeast-trans : (x y : A) (ys : List A) → key x ≤ key y → IsLeast y ys → IsLeast x ys
  IsLeast-trans x y [] le h = tt
  IsLeast-trans x y (z ∷ ys) le (h, hs) = (omega arith, IsLeast-trans x y ys le hs)

  module _ (cmp : A → A → Ordering) (after : (a b : A) → cmp a b ≡ greater → key b ≤ key a)
      (before : (a b : A) → cmp a b ≢ greater → key a ≤ key b) where
    place-IsLeast :
        (z x : A) (ys : List A) → key z ≤ key x → IsLeast z ys → IsLeast z (place cmp x ys)
    place-IsLeast z x [] le h = unfold place in (le, tt)
    place-IsLeast z x (y ∷ ys) le (h, hs) = elim (place_cases cmp x y ys) [
      | inl (e, _) ↦ rw e (h, place-IsLeast z x ys le hs)
      | inr (e, _) ↦ rw e (le, (h, hs))
    ]

    place-Ascending : (x : A) (ys : List A) → Ascending ys → Ascending (place cmp x ys)
    place-Ascending x [] h = unfold place in (tt, tt)
    place-Ascending x (y ∷ ys) (h, hs) = elim (place_cases cmp x y ys) [
      | inl (e, g) ↦ rw e (place-IsLeast y x ys (after x y g) h, place-Ascending x ys hs)
      | inr (e, n) ↦ rw e ((before x y n, IsLeast-trans x y ys (before x y n) h), (h, hs))
    ]

    -- A comparison that never contradicts a number sorts by that number.
    pub sort_by-Ascending : (xs : List A) → Ascending (sort_by cmp xs)
    unfolding sort_by
    sort_by-Ascending [] = tt
    sort_by-Ascending (x ∷ xs) = place-Ascending x (sort_by cmp xs) (sort_by-Ascending xs)
