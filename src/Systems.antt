-- ===== src/Systems.antt =====
-- crates/common/src/systems.rs: the systems that an instance builds. The sessions of connected agents are
-- an answer; nothing is said of a set but what it contains.
use circus.Common.{
  ◌≡◌, ◌↔◌, Bool, true, List, [], ◌∷◌, ◌++◌, Option, none, some, String, arith, retain, retain-In,
  In-retain, Result, ok, err,
}
use circus.Rpc.Agent.{contains}
use circus.Rpc.Agent.Features.{contains_iff}

-- `EvaluatorSystems`: a list, or a keyword, of which the validation accepts `auto` only.
pub data EvaluatorSystems : Type 0 where
  listed : List String → EvaluatorSystems
  keyword : String → EvaluatorSystems

abbrev all_systems : List (List String) → List String
all_systems [] = []
all_systems (systems ∷ sessions) = systems ++ all_systems sessions

abbrev unless_empty : List String → Option (List String)
unless_empty [] = none
unless_empty (s ∷ systems) = some (s ∷ systems)

unfoldable pub resolve_allowed_systems :
    Option EvaluatorSystems → Result {0, 0} String (List (List String)) → Option (List String)
resolve_allowed_systems none connected = none
resolve_allowed_systems (some (listed systems)) connected = some systems
resolve_allowed_systems (some (keyword word)) (ok sessions) = unless_empty (all_systems sessions)
resolve_allowed_systems (some (keyword word)) (err e) = none

unfoldable pub restrict_to_jobset :
    Option (List String) → Option (List String) → Option (List String)
restrict_to_jobset instance_set none = instance_set
restrict_to_jobset none (some jobset) = some jobset
restrict_to_jobset (some instance_set) (some jobset) = some (retain (contains instance_set) jobset)

unfoldable pub system_allowed : Option String → Option (List String) → Bool
system_allowed (some system) (some allowed) = contains allowed system
system_allowed _ _ = true

-- A jobset can only narrow what the instance builds: under the restriction a system is allowed exactly
-- if it is allowed by the instance and by the list of the jobset, where a missing list allows all.
restrict_to_jobset_iff :
    (instance_set jobset : Option (List String)) (system : String)
    → (system_allowed (some system) (restrict_to_jobset instance_set jobset) ≡ true) ↔ (
        (system_allowed (some system) instance_set ≡ true)
        × (system_allowed (some system) jobset ≡ true))
unfolding restrict_to_jobset system_allowed
restrict_to_jobset_iff none none system = ground arith
restrict_to_jobset_iff (some s) none system = ground arith
restrict_to_jobset_iff none (some j) system = ground arith
restrict_to_jobset_iff (some s) (some j) system =
    let all = contains_iff (retain (contains s) j) system in
    ground (
      arith,
      all,
      contains_iff j system,
      retain-In (contains s) system j,
      In-retain (contains s) system j,
    )
