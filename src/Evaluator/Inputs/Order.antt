-- ===== src/Evaluator/Inputs/Order.antt =====
-- crates/evaluator/src/builds.rs, `compute_inputs_hash`: the order of the inputs does not matter, and
-- where one text ends and the next begins does not either.
use circus.Common.{
  ◌≡◌, ◌⊎◌, inl, inr, refl, ap, sym, ◌∙◌, true, false, List, [], ◌∷◌, ◌++◌, some, Bytes, arith, In,
  Bool-cases, append_assoc, codes,
}
use mathlib.Core.List.{Permᴰ}
use circus.Common.Sort.{place, sort_by}
use circus.Types.InputType.{InputType, as_str}
use circus.Evaluator.Inputs.{
  JobsetInput, before, by_name, input_bytes, all_bytes, compute_inputs_hash,
}

before_asym : (a b : Bytes) → before a b ≡ true → before b a ≡ false
unfolding before
before_asym [] [] h = refl
before_asym [] (b ∷ t) h = refl
before_asym (a ∷ s) [] h = absurd (ground (arith, h))
before_asym (a ∷ s) (b ∷ t) h = ground (arith, before_asym s t)

before_total : (a b : Bytes) → before a b ≡ false → before b a ≡ false → a ≡ b
unfolding before
before_total [] [] h k = refl
before_total [] (b ∷ t) h k = cc
before_total (a ∷ s) [] h k = cc
before_total (a ∷ s) (b ∷ t) h k = ground (arith, before_total s t)

before_trans : (z x y : Bytes) → before z x ≡ true → before z y ≡ false → before y x ≡ true
unfolding before
before_trans [] [] y h k = absurd (ground (arith, h))
before_trans [] (b ∷ x) [] h k = refl
before_trans [] (b ∷ x) (c ∷ y) h k = absurd (ground (arith, k))
before_trans (a ∷ z) [] y h k = absurd (ground (arith, h))
before_trans (a ∷ z) (b ∷ x) [] h k = refl
before_trans (a ∷ z) (b ∷ x) (c ∷ y) h k = ground (arith, before_trans z x y)

-- Where an input goes, in terms of the names.
place_step :
    (x z : JobsetInput) (zs : List JobsetInput)
    → ((before z.name x.name ≡ true) × (place by_name x (z ∷ zs) ≡ z ∷ place by_name x zs))
      ⊎ ((before z.name x.name ≡ false) × (place by_name x (z ∷ zs) ≡ x ∷ z ∷ zs))
unfolding place by_name
place_step x z zs = elim (Bool-cases (before z.name x.name)) [
  | inl e ↦ inl (e, ground (arith, e, before_asym z.name x.name e))
  | inr e ↦ inr (e, ground (arith, e))
]

place_empty : (x : JobsetInput) → place by_name x [] ≡ x ∷ []
unfolding place
place_empty x = refl

-- Two inputs of one name are one input.
abbrev pub Apart : JobsetInput → JobsetInput → Type 0
Apart x y = x.name ≡ y.name → x ≡ y

place_both :
    (x y : JobsetInput) (tail : List JobsetInput)
    → before y.name x.name ≡ true
    → place by_name x (y ∷ tail) ≡ y ∷ place by_name x tail
place_both x y tail e = elim (place_step x y tail) [
  | inl (_, k) ↦ k
  | inr (n, _) ↦ absurd (ground (arith, e, n))
]

place_here :
    (x y : JobsetInput) (tail : List JobsetInput)
    → before y.name x.name ≡ false
    → place by_name x (y ∷ tail) ≡ x ∷ y ∷ tail
place_here x y tail e = elim (place_step x y tail) [
  | inl (n, _) ↦ absurd (ground (arith, e, n))
  | inr (_, k) ↦ k
]

two_in_front :
    (x y : JobsetInput) (l : List JobsetInput)
    → Apart x y
    → place by_name x l ≡ x ∷ l
    → place by_name y l ≡ y ∷ l
    → place by_name x (y ∷ l) ≡ place by_name y (x ∷ l)
two_in_front x y l apart px py = elim (Bool-cases (before y.name x.name)) [
  | inl yx ↦
      place_both x y l yx
      ∙ ap (λ m. y ∷ m) px
      ∙ sym (place_here y x l (before_asym y.name x.name yx))
  | inr yx ↦ elim (Bool-cases (before x.name y.name)) [
    | inl xy ↦ place_here x y l yx ∙ ap (λ m. x ∷ m) (sym py) ∙ sym (place_both y x l xy)
    | inr xy ↦
        let same = apart (before_total x.name y.name xy yx) in
        ap (λ z. place by_name z (y ∷ l)) same ∙ ap (λ z. place by_name y (z ∷ l)) (sym same)
  ]
]

-- Inputs of different names may be placed in either order.
place_swap :
    (x y : JobsetInput) (zs : List JobsetInput)
    → Apart x y
    → place by_name x (place by_name y zs) ≡ place by_name y (place by_name x zs)
place_swap x y [] apart =
    ap (place by_name x) (place_empty y)
    ∙ two_in_front x y [] apart (place_empty x) (place_empty y)
    ∙ sym (ap (place by_name y) (place_empty x))
place_swap x y (z ∷ zs) apart = elim (place_step x z zs) [
  | inl (zx, px) ↦ elim (place_step y z zs) [
    | inl (zy, py) ↦
        ap (place by_name x) py
        ∙ place_both x z (place by_name y zs) zx
        ∙ ap (λ l. z ∷ l) (place_swap x y zs apart)
        ∙ sym (place_both y z (place by_name x zs) zy)
        ∙ sym (ap (place by_name y) px)
    | inr (zy, py) ↦
        let yx = before_trans z.name x.name y.name zx zy in
        ap (place by_name x) py
        ∙ place_both x y (z ∷ zs) yx
        ∙ ap (λ l. y ∷ l) px
        ∙ sym (place_here y z (place by_name x zs) zy)
        ∙ sym (ap (place by_name y) px)
  ]
  | inr (zx, px) ↦ elim (place_step y z zs) [
    | inl (zy, py) ↦
        let xy = before_trans z.name y.name x.name zy zx in
        ap (place by_name x) py
        ∙ place_here x z (place by_name y zs) zx
        ∙ ap (λ l. x ∷ l) (sym py)
        ∙ sym (place_both y x (z ∷ zs) xy)
        ∙ sym (ap (place by_name y) px)
    | inr (zy, py) ↦
        ap (place by_name x) py
        ∙ two_in_front x y (z ∷ zs) apart px py
        ∙ sym (ap (place by_name y) px)
  ]
]

In-Permᴰ : {xs ys : List JobsetInput} (a : JobsetInput) → Permᴰ xs ys → In a ys → In a xs
In-Permᴰ a Permᴰ.nil m = m
In-Permᴰ a (Permᴰ.cons e p) m = elim m [ inl k ↦ inl (k ∙ sym e) | inr k ↦ inr (In-Permᴰ a p k) ]
In-Permᴰ a (Permᴰ.swap e f) m = elim m [
  | inl k ↦ inr (inl (k ∙ sym f))
  | inr k ↦ elim k [ inl l ↦ inl (l ∙ sym e) | inr l ↦ inr (inr l) ]
]
In-Permᴰ a (Permᴰ.trans p q) m = In-Permᴰ a p (In-Permᴰ a q m)

-- The inputs of a list have different names.
abbrev pub AllApart : List JobsetInput → Type 0
AllApart xs = (x y : JobsetInput) → In x xs → In y xs → Apart x y

sort_by-Permᴰ :
    {xs ys : List JobsetInput} → Permᴰ xs ys → AllApart xs → sort_by by_name xs ≡ sort_by by_name ys
unfolding sort_by
sort_by-Permᴰ Permᴰ.nil apart = refl
sort_by-Permᴰ (Permᴰ.cons {a} {b} {l₁} {l₂} e p) apart =
    ap (λ x. place by_name x (sort_by by_name l₁)) e
    ∙ ap (place by_name b) (sort_by-Permᴰ p (λ x y m n. apart x y (inr m) (inr n)))
sort_by-Permᴰ (Permᴰ.swap {a} {b} {a'} {b'} {l} e f) apart =
    place_swap a b (sort_by by_name l) (apart a b (inl refl) (inr (inl refl)))
    ∙ ap (λ x. place by_name x (place by_name a (sort_by by_name l))) f
    ∙ ap (λ x. place by_name a' (place by_name x (sort_by by_name l))) e
sort_by-Permᴰ (Permᴰ.trans p q) apart =
    sort_by-Permᴰ p apart ∙ sort_by-Permᴰ q (λ x y m n. apart x y (In-Permᴰ x p m) (In-Permᴰ y p n))

-- The hash does not depend on the order in which the database lists the inputs, whose names differ.
pub compute_inputs_hash-Permᴰ :
    (hex_sha256 : Bytes → Bytes) (commit_hash : Bytes) (xs ys : List JobsetInput)
    → Permᴰ xs ys
    → AllApart xs
    → compute_inputs_hash hex_sha256 commit_hash xs ≡ compute_inputs_hash hex_sha256 commit_hash ys
unfolding compute_inputs_hash
compute_inputs_hash-Permᴰ hex_sha256 commit_hash xs ys p apart =
    ap (λ l. hex_sha256 (commit_hash ++ all_bytes l)) (sort_by-Permᴰ p apart)

-- Only the name and the bytes of an input count.
bytes-place :
    (a b : JobsetInput) (l : List JobsetInput)
    → a.name ≡ b.name
    → input_bytes a ≡ input_bytes b
    → all_bytes (place by_name a l) ≡ all_bytes (place by_name b l)
bytes-place a b [] name bytes =
    ap all_bytes (place_empty a) ∙ ap (λ x. x ++ []) bytes ∙ sym (ap all_bytes (place_empty b))
bytes-place a b (z ∷ zs) name bytes = elim (Bool-cases (before z.name a.name)) [
  | inl e ↦
      ap all_bytes (place_both a z zs e)
      ∙ ap (λ x. input_bytes z ++ x) (bytes-place a b zs name bytes)
      ∙ sym (ap all_bytes (place_both b z zs (sym (ap (before z.name) name) ∙ e)))
  | inr e ↦
      ap all_bytes (place_here a z zs e)
      ∙ ap (λ x. x ++ all_bytes (z ∷ zs)) bytes
      ∙ sym (ap all_bytes (place_here b z zs (sym (ap (before z.name) name) ∙ e)))
]

-- The hash does not see where the value of an input ends and its revision begins: bytes may move from the
-- one to the other, and the hash stays, whatever the digest is.
pub compute_inputs_hash_blurs :
    (hex_sha256 : Bytes → Bytes) (commit_hash name value moved revision : Bytes)
    (input_type : InputType) (others : List JobsetInput)
    → compute_inputs_hash hex_sha256 commit_hash (
        record {
          name = name;
          input_type = input_type;
          value = value ++ moved;
          revision = some revision;
        }
        ∷ others)
      ≡ compute_inputs_hash hex_sha256 commit_hash (
          record {
            name = name;
            input_type = input_type;
            value = value;
            revision = some (moved ++ revision);
          }
          ∷ others)
unfolding compute_inputs_hash sort_by input_bytes
compute_inputs_hash_blurs hex_sha256 commit_hash name value moved revision input_type others =
    ap (λ l. hex_sha256 (commit_hash ++ l))
      (bytes-place _ _ (sort_by by_name others) refl
        (ap (λ l. name ++ (codes (as_str input_type) ++ l)) (append_assoc value moved revision)))
