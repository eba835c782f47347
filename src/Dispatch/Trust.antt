-- ===== src/Dispatch/Trust.antt =====
-- crates/queue-runner/src/dispatch.rs: which builds come from a trusted ref, and which agents that
-- opens. The parser of URLs, a third-party crate, is a parameter.
pub mod Policy
use circus.Common.{Bool, true, false, not, ◌||◌, Option, none, some, String, str_eq, if◌then◌else◌}
use circus.Models.EvaluationTriggerKind.{EvaluationTriggerKind, source_change, manual, interval}
use circus.Models.Rows.{Evaluation, Jobset}
use circus.Rpc.Agent.{AgentSnapshot, requires_trusted_ref}

abbrev is_some {ℓ} : {A : Type ℓ} → Option A → Bool
is_some none = false
is_some (some a) = true

-- `jobset.branch.as_deref().is_none_or(str::is_empty)`.
abbrev pub no_branch : Option String → Bool
no_branch none = true
no_branch (some b) = str_eq b ""

-- The `matches!` lists every kind of trigger.
abbrev trusted_trigger : EvaluationTriggerKind → Bool
trusted_trigger source_change = true
trusted_trigger manual = true
trusted_trigger interval = true

unfoldable pub is_trusted_ref_evaluation : Evaluation → Jobset → Bool
is_trusted_ref_evaluation evaluation jobset =
    if no_branch jobset.branch
    then false
    else if is_some evaluation.pr_number
        || is_some evaluation.pr_head_branch
        || is_some evaluation.pr_base_branch
    then false
    else trusted_trigger evaluation.trigger_kind

pub record TrustedBuildContext : Type 0 where
  pub repository : Option String

-- `repo.is_none_or(|repo| trusted.repository.as_deref() == Some(repo))`.
abbrev pub repository_matches : Option String → Option String → Bool
repository_matches none actual = true
repository_matches (some repo) none = false
repository_matches (some repo) (some actual) = str_eq actual repo

abbrev allowed_in : {F : Type 0} → AgentSnapshot F → Option TrustedBuildContext → Bool
allowed_in agent none = false
allowed_in agent (some trusted) = repository_matches agent.oidc_repository trusted.repository

unfoldable pub candidate_allowed_for_trusted_build :
    {F : Type 0} → AgentSnapshot F → Option TrustedBuildContext → Bool
unfolding requires_trusted_ref
candidate_allowed_for_trusted_build agent trusted =
    if not (requires_trusted_ref agent) then true else allowed_in agent trusted
