-- ===== src/Glob/Meaning.antt =====
-- crates/common/src/glob.rs: `glob_matches` decides the meaning of a pattern.
use circus.Common.{
  ℕ, ◌≡◌, refl, ap, sym, ◌↔◌, inl, inr, true, false, ◌||◌, ◌&&◌, ◌==◌, subst, [], ◌∷◌, ◌++◌, Bytes,
  arith, ||-eq-true,
}
use circus.Glob.{Kind, run, single, literal, kind, inner, glob_matches}

-- The values that a pattern stands for, given those of its rest: a star stands for any run of bytes,
-- a question mark for any one byte, any other byte for itself.
abbrev Front : Kind → ℕ → (Bytes → Type 0) → Bytes → Type 0
Front run c Rest v = (prefix rest : Bytes) × (v ≡ prefix ++ rest) × Rest rest
Front single c Rest v = (d : ℕ) × (rest : Bytes) × (v ≡ d ∷ rest) × Rest rest
Front literal c Rest v = (rest : Bytes) × (v ≡ c ∷ rest) × Rest rest

abbrev pub Matches : Bytes → Bytes → Type 0
Matches [] v = v ≡ []
Matches (c ∷ pattern) v = Front (kind c) c (Matches pattern) v

-- A run that matches the rest of the value, or all of it but one byte more.
run_more : (c d : ℕ) (p v : Bytes) → kind c ≡ run → Matches (c ∷ p) v → Matches (c ∷ p) (d ∷ v)
run_more c d p v e m =
    let (prefix, rest, split, matched) = subst (λ k. Front k c (Matches p) v) e m in
    subst (λ k. Front k c (Matches p) (d ∷ v)) (sym e)
      (d ∷ prefix, rest, ap (λ t. d ∷ t) split, matched)

inner_sound : (p v : Bytes) → inner p v ≡ true → Matches p v
unfolding inner
inner_sound [] [] h = refl
inner_sound [] (x ∷ v) h = cc
inner_sound (c ∷ p) [] h =
    (elim (kind c)
        as (λ k.
          elim k [ run ↦ inner p [] | single ↦ false | literal ↦ false ] ≡ true
          → Front k c (Matches p) []) [
            | run ↦ λ g. ([], [], refl, inner_sound p [] g)
            | single ↦ λ g. cc
            | literal ↦ λ g. cc
          ])
      h
inner_sound (c ∷ p) (d ∷ v) h =
    (elim (kind c)
        as (λ k.
          kind c ≡ k
          → elim k [
            | run ↦ inner p (d ∷ v) || inner (c ∷ p) v
            | single ↦ inner p v
            | literal ↦ d == c && inner p v
          ]
            ≡ true
          → Front k c (Matches p) (d ∷ v)) [
            | run ↦ λ e g. elim ((||-eq-true (inner p (d ∷ v)) (inner (c ∷ p) v)).0 g) [
              | inl now ↦ ([], d ∷ v, refl, inner_sound p (d ∷ v) now)
              | inr later ↦
                  subst (λ k. Front k c (Matches p) (d ∷ v)) e
                    (run_more c d p v e (inner_sound (c ∷ p) v later))
            ]
            | single ↦ λ e g. (d, v, refl, inner_sound p v g)
            | literal ↦ λ e g. (v, ground arith, inner_sound p v (ground arith))
          ])
      refl h

inner-run :
    (c : ℕ) (p prefix rest : Bytes)
    → kind c ≡ run
    → inner p rest ≡ true
    → inner (c ∷ p) (prefix ++ rest) ≡ true
unfolding inner
inner-run c p [] [] e h = rw (e, inner) h
inner-run c p [] (d ∷ rest) e h =
    rw (e, inner) ((||-eq-true (inner p (d ∷ rest)) (inner (c ∷ p) rest)).1 (inl h))
inner-run c p (d ∷ prefix) rest e h =
    rw (e, inner)
      ((||-eq-true (inner p (d ∷ (prefix ++ rest))) (inner (c ∷ p) (prefix ++ rest))).1
        (inr (inner-run c p prefix rest e h)))

inner_single :
    (c d : ℕ) (p v : Bytes) → kind c ≡ single → inner p v ≡ true → inner (c ∷ p) (d ∷ v) ≡ true
unfolding inner
inner_single c d p v e h = rw (e, inner) h

inner_literal :
    (c : ℕ) (p v : Bytes) → kind c ≡ literal → inner p v ≡ true → inner (c ∷ p) (c ∷ v) ≡ true
unfolding inner
inner_literal c p v e h = rw (e, inner) (ground arith)

inner_complete : (p v : Bytes) → Matches p v → inner p v ≡ true
unfolding inner
inner_complete [] v m = rw m
inner_complete (c ∷ p) v m =
    (elim (kind c) as (λ k. kind c ≡ k → Front k c (Matches p) v → inner (c ∷ p) v ≡ true) [
      | run ↦ λ e (prefix, rest, split, h).
          rw split (inner-run c p prefix rest e (inner_complete p rest h))
      | single ↦
          λ e (d, rest, split, h). rw split (inner_single c d p rest e (inner_complete p rest h))
      | literal ↦
          λ e (rest, split, h). rw split (inner_literal c p rest e (inner_complete p rest h))
    ])
      refl m

-- The matcher accepts a value exactly when the value is one that the pattern stands for, byte by byte: a
-- star for any run of bytes, a question mark for any one byte, any other byte for itself.
pub glob_matches_iff : (p v : Bytes) → (glob_matches p v ≡ true) ↔ Matches p v
unfolding glob_matches
glob_matches_iff p v = (inner_sound p v, inner_complete p v)
