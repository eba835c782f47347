-- ===== src/Evaluator/Inputs.antt =====
-- crates/evaluator/src/builds.rs, `compute_inputs_hash`, on texts as their bytes. The digest, in
-- hexadecimal, is that of third-party crates and a parameter.
pub mod Order
use circus.Common.{
  Bool, true, false, List, [], ◌∷◌, ◌++◌, Option, none, some, Bytes, codes, ltb, ◌==◌,
  if◌then◌else◌,
}
use circus.Common.Float.{Ordering, less, equal, greater}
use circus.Common.Sort.{sort_by}
use circus.Types.InputType.{InputType, as_str}

-- The columns of a jobset's input that are hashed.
pub record JobsetInput : Type 0 where
  pub name : Bytes
  pub input_type : InputType
  pub value : Bytes
  pub revision : Option Bytes

-- The order of texts.
unfoldable pub before : Bytes → Bytes → Bool
before [] [] = false
before [] (b ∷ t) = true
before (a ∷ s) [] = false
before (a ∷ s) (b ∷ t) =
    let rest = before s t in if ltb a b then true else if a == b then rest else false

unfoldable pub by_name : JobsetInput → JobsetInput → Ordering
unfolding before
by_name a b = if before a.name b.name then less else if before b.name a.name then greater else equal

unfoldable pub input_bytes : JobsetInput → Bytes
unfolding as_str
input_bytes input =
    input.name
    ++ (codes (as_str input.input_type)
        ++ (input.value ++ elim input.revision [ none ↦ [] | some rev ↦ rev ]))

abbrev pub all_bytes : List JobsetInput → Bytes
all_bytes [] = []
all_bytes (input ∷ inputs) = input_bytes input ++ all_bytes inputs

unfoldable pub compute_inputs_hash : (Bytes → Bytes) → Bytes → List JobsetInput → Bytes
unfolding by_name sort_by
compute_inputs_hash hex_sha256 commit_hash inputs =
    hex_sha256 (commit_hash ++ all_bytes (sort_by by_name inputs))
