-- ===== src/Evaluator/Graph/Pending.antt =====
-- crates/evaluator/src/builds.rs, `expand_derivation_graph`: how many paths may yet be queued.
use circus.Common.{
  ℕ, ◌+◌, ◌≤◌, ◌≡◌, inl, inr, false, if◌then◌else◌, str_eq, List, [], ◌∷◌, some, String, eq_iff,
  arith, length, Bool-cases,
}
use circus.Rpc.Agent.{contains}
use circus.Evaluator.Graph.{DerivationInfo, Derivations, get, items, all_inputs}

abbrev pub pending : List String → Derivations → ℕ
pending included [] = 0
pending included ((drv, info) ∷ rest) =
    (if contains included drv then 0 else length (items info.input_drvs)) + pending included rest

pending-cons :
    (drv : String) (included : List String) (rest : Derivations)
    → pending (drv ∷ included) rest ≤ pending included rest
unfolding contains
pending-cons drv included [] = omega arith
pending-cons drv included ((d, info) ∷ rest) = ground (arith, pending-cons drv included rest)

pub pending-le :
    (included : List String) (rest : Derivations) → pending included rest ≤ all_inputs rest
pending-le included [] = omega arith
pending-le included ((d, info) ∷ rest) = ground (arith, pending-le included rest)

-- A derivation that is added leaves room for its inputs.
pub pending-add :
    (drv : String) (info : DerivationInfo) (included : List String) (rest : Derivations)
    → get rest drv ≡ some info
    → contains included drv ≡ false
    → pending (drv ∷ included) rest + length (items info.input_drvs) ≤ pending included rest
unfolding get contains
pending-add drv info included [] g c = cc
pending-add drv info included ((d, i) ∷ rest) g c = elim (Bool-cases (str_eq d drv)) [
  | inl e ↦ ground (arith, (eq_iff d drv).0 e, pending-cons drv included rest)
  | inr e ↦ ground (arith, pending-add drv info included rest, eq_iff d drv)
]
