-- ===== src/Tests/Inputs.antt =====
-- Tests of the hash of a jobset's inputs.
use mathlib.Core.List.{Permᴰ}
use circus.Common.{◌≡◌, refl, sym, ◌∙◌, ap, List, [], ◌∷◌, ◌++◌, none, some, codes, inl, inr, arith}
use circus.Types.InputType.{git}
use circus.Evaluator.Inputs.{JobsetInput, compute_inputs_hash}
use circus.Evaluator.Inputs.Order.{AllApart, compute_inputs_hash-Permᴰ, compute_inputs_hash_blurs}

abbrev source : JobsetInput
source = record {
  name = codes "src";
  input_type = git;
  value = codes "https://example.org/a";
  revision = some (codes "1");
}

abbrev packages : JobsetInput
packages = record source { name = codes "nixpkgs"; revision = none }

abbrev two_inputs : List JobsetInput
two_inputs = source ∷ packages ∷ []

two_inputs-AllApart : AllApart two_inputs
two_inputs-AllApart x y m n e = elim m [
  | inl a ↦ elim n [
    | inl b ↦ a ∙ sym b
    | inr k ↦ elim k [
      | inl b ↦ absurd (ground (arith, ap (λ i. i.name) a, ap (λ i. i.name) b, e))
      | inr z ↦ absurd z
    ]
  ]
  | inr l ↦ elim l [
    | inl a ↦ elim n [
      | inl b ↦ absurd (ground (arith, ap (λ i. i.name) a, ap (λ i. i.name) b, e))
      | inr k ↦ elim k [ inl b ↦ a ∙ sym b | inr z ↦ absurd z ]
    ]
    | inr z ↦ absurd z
  ]
]

compute_inputs_hash-Permᴰ_example :
    compute_inputs_hash (λ bytes. bytes) (codes "c0") two_inputs
    ≡ compute_inputs_hash (λ bytes. bytes) (codes "c0") (packages ∷ source ∷ [])
compute_inputs_hash-Permᴰ_example =
    compute_inputs_hash-Permᴰ (λ bytes. bytes) (codes "c0") two_inputs (packages ∷ source ∷ [])
      (Permᴰ.swap refl refl) two_inputs-AllApart

compute_inputs_hash_blurs_example :
    compute_inputs_hash
      (λ bytes. bytes)
      (codes "c0")
      (record source { value = codes "v" ++ codes "1"; revision = some (codes "2") }
        ∷ packages
        ∷ [])
    ≡ compute_inputs_hash
        (λ bytes. bytes)
        (codes "c0")
        (record source { value = codes "v"; revision = some (codes "1" ++ codes "2") }
          ∷ packages
          ∷ [])
compute_inputs_hash_blurs_example =
    compute_inputs_hash_blurs (λ bytes. bytes) (codes "c0") (codes "src") (codes "v") (codes "1")
      (codes "2") git (packages ∷ [])
