-- ===== src/Evaluator/Graph/Invalid.antt =====
-- crates/evaluator/src/builds.rs, `invalid_output_paths`: an output that nobody vouches for.
use circus.Common.{
  ℕ, zero, suc, ◌≤◌, ◌≡◌, ◌⊎◌, inl, inr, refl, ap, subst, true, List, [], ◌∷◌, none, some, String,
  arith, In, In-append_iff, any, length, take, Option-cases,
}
use circus.Rpc.Agent.{contains}
use circus.Rpc.Agent.Features.{contains_iff}
use circus.Evaluator.Graph.{
  DerivationInfo, Derivations, Check, values, drop, should_enqueue_derivation, known_outputs,
  distinct, chunks, invalid_in, invalid_output_paths,
}

take_or_drop :
    (p : String) (n : ℕ) (xs : List String) → In p xs → In p (take n xs) ⊎ In p (drop n xs)
take_or_drop p zero xs m = inr m
take_or_drop p (suc n) [] m = absurd m
take_or_drop p (suc n) (x ∷ xs) (inl e) = inl (inl e)
take_or_drop p (suc n) (x ∷ xs) (inr m) = elim (take_or_drop p n xs m) [
  | inl k ↦ inl (inr k)
  | inr k ↦ inr k
]

length-drop : (n : ℕ) (xs : List String) → length (drop n xs) ≤ length xs
length-drop zero xs = omega arith
length-drop (suc n) [] = omega arith
length-drop (suc n) (x ∷ xs) = omega (arith, length-drop n xs)

-- Every path is in a chunk.
chunk_of :
    (p : String) (n : ℕ) (xs : List String) (fuel : ℕ)
    → length xs ≤ fuel
    → In p xs
    → (chunk : List String) × In chunk (chunks (suc n) xs fuel) × In p chunk
unfolding chunks
chunk_of p n [] fuel f m = absurd m
chunk_of p n (x ∷ xs) zero f m = absurd (omega (arith, f))
chunk_of p n (x ∷ xs) (suc fuel) f m = elim (take_or_drop p (suc n) (x ∷ xs) m) [
  | inl k ↦ (take (suc n) (x ∷ xs), inl refl, k)
  | inr k ↦
      let (chunk, i, h) = chunk_of p n (drop n xs) fuel (omega (arith, f, length-drop n xs)) k in
      (chunk, inr i, h)
]

-- The command does not vouch for a path: it fails for a chunk that holds it, or lists it as invalid.
abbrev pub Unvouched : Check → String → Type 0
Unvouched check p =
    (chunk : List String)
    → In p chunk
    → (check chunk ≡ none) ⊎ ((lines : List String) × (check chunk ≡ some lines) × In p lines)

In-invalid_in :
    (check : Check) (p : String) (rest : List (List String)) (chunk : List String)
    → Unvouched check p
    → In chunk rest
    → In p chunk
    → In p (invalid_in check rest)
unfolding invalid_in
In-invalid_in check p [] chunk u i m = absurd i
In-invalid_in check p (c ∷ rest) chunk u (inl e) m =
    let here = subst (λ x. In p x) e m in
    elim (u c here) [
      | inl n ↦ ground (arith, n, here, In-append_iff p c (invalid_in check rest))
      | inr (lines, s, k) ↦ ground (arith, s, k, In-append_iff p lines (invalid_in check rest))
    ]
In-invalid_in check p (c ∷ rest) chunk u (inr i) m =
    let later = In-invalid_in check p rest chunk u i m in
    elim (Option-cases (check c)) [
      | inl n ↦ ground (arith, n, later, In-append_iff p c (invalid_in check rest))
      | inr (lines, s) ↦ ground (arith, s, later, In-append_iff p lines (invalid_in check rest))
    ]

In-distinct : (p : String) (ps : List String) → In p ps → In p (distinct ps)
unfolding distinct
In-distinct p [] m = m
In-distinct p (q ∷ ps) m = ground (arith, m, In-distinct p ps, contains_iff (distinct ps) q)

In-known_outputs :
    (drv p : String) (info : DerivationInfo) (outputs : List (String × String))
    (derivations : Derivations)
    → In (drv, info) derivations
    → info.outputs ≡ some outputs
    → In p (values outputs)
    → In p (known_outputs derivations)
In-known_outputs drv p info outputs [] i e m = absurd i
In-known_outputs drv p info outputs ((d, j) ∷ derivations) (inl k) e m =
    let own : j.outputs ≡ some outputs =
      subst (λ x. x.outputs ≡ some outputs) (ap (λ x. x.1) k) e in
    ground (arith, own, m, In-append_iff p (values outputs) (known_outputs derivations))
In-known_outputs drv p info outputs ((d, j) ∷ derivations) (inr k) e m =
    let later = In-known_outputs drv p info outputs derivations k e m in
    elim (Option-cases j.outputs) [
      | inl n ↦ ground (arith, n, later)
      | inr (own, n) ↦
          ground (arith, n, later, In-append_iff p (values own) (known_outputs derivations))
    ]

any-contains : (p : String) (ps qs : List String) → In p ps → In p qs → any (contains qs) ps ≡ true
any-contains p [] qs i m = absurd i
any-contains p (q ∷ ps) qs i m = ground (arith, i, m, contains_iff qs q, any-contains p ps qs)

-- A derivation passes the test of the expansion if the command does not vouch for one of its outputs.
pub Unvouched-enqueued :
    (drv p : String) (info : DerivationInfo) (outputs : List (String × String))
    (derivations : Derivations) (check : Check)
    → In (drv, info) derivations
    → info.outputs ≡ some outputs
    → In p (values outputs)
    → Unvouched check p
    → should_enqueue_derivation info (invalid_output_paths derivations check) ≡ true
unfolding should_enqueue_derivation invalid_output_paths
Unvouched-enqueued drv p info outputs derivations check i e m u =
    let paths = distinct (known_outputs derivations) in
    let known = In-distinct p _ (In-known_outputs drv p info outputs derivations i e m) in
    let (chunk, at, h) = chunk_of p 1023 paths (length paths) (omega arith) known in
    rw e (any-contains p (values outputs) _ m (In-invalid_in check p _ chunk u at h))
