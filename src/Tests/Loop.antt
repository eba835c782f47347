-- ===== src/Tests/Loop.antt =====
-- Tests of the main loop.
use circus.Common.{
  ◌≡◌, ◌↔◌, refl, true, false, List, [], ◌∷◌, Option, none, some, String, ℕ, In, inl, inr,
}
use circus.Models.EvaluationTriggerKind.{source_change, interval}
use circus.Models.JobsetState.{enabled}
use circus.Models.JobsetTriggerMode
use circus.Models.Rows.{Build}
use circus.Dispatch.Select.{answered}
use circus.RunnerLoop.{dispatch, LoopAnswers}
use circus.RunnerLoop.Stages.{is_interval_rebuild}
use circus.RunnerLoop.Body.{LoopConfig, Pending, process_build, process_builds}
use circus.RunnerLoop.Ready.{IsReady, dispatched_iff_IsReady}
use circus.RunnerLoop.Outcomes.{Fate, process_build_outcomes}
use circus.RunnerLoop.OutputCache.{process_each, output_cache_transparent}
use circus.Rpc.Agent.{snapshot}
use circus.Tests.{agents, kvm_build}

abbrev loop_config : LoopConfig ℕ
loop_config = record {
  failed_paths_cache = true;
  unsupported_timeout = some 60000;
  runner_caps = record { enabled = false; systems = []; features = [] };
  agents = snapshot (agents 1) 1 ∷ [];
}

abbrev query : String → Option String
query drv = some "/nix/store/out"

abbrev replies : LoopAnswers
replies = record {
  trigger_evaluation = λ id. answered (record {
    id = id;
    jobset_id = 5;
    trigger_kind = source_change;
    pr_number = none;
    pr_head_branch = none;
    pr_base_branch = none;
  });
  evaluation = λ id. answered (record {
    id = id;
    jobset_id = 5;
    trigger_kind = source_change;
    pr_number = none;
    pr_head_branch = none;
    pr_base_branch = none;
  });
  jobset = λ id. answered (record {
    id = id;
    project_id = 3;
    name = "main";
    trigger_mode = JobsetTriggerMode.source_change;
    branch = some "main";
    state = enabled;
  });
  has_running_builds = λ id. answered true;
  all_deps_completed = λ id. answered true;
  completed_by_drv_path = λ drv. answered none;
  is_cached_failure = λ drv. answered false;
  builders_for = λ system. answered [];
  completes = λ id. true;
  notifiable = λ id. true;
  output_paths = λ b. [];
  query_drv_output = query;
  is_valid_path = λ path. true;
  now = 2000;
}

dispatched_iff_IsReady_example :
    ((process_build loop_config replies kvm_build []).effects ≡ dispatch 7 ∷ [])
    ↔ IsReady loop_config replies kvm_build []
dispatched_iff_IsReady_example = dispatched_iff_IsReady loop_config replies kvm_build []

process_build_outcomes_example :
    Fate loop_config replies kvm_build (process_build loop_config replies kvm_build []).effects
process_build_outcomes_example = process_build_outcomes loop_config replies kvm_build []

-- Two fixed-output builds of one derivation.
abbrev fixed : Build
fixed = record kvm_build { is_fod = true }

abbrev cycle : List Pending
cycle =
    record { build = fixed; answers = replies } ∷ record { build = fixed; answers = replies } ∷ []

same_query : (p : Pending) → In p cycle → p.answers.query_drv_output ≡ query
same_query p (inl e) = rw e
same_query p (inr (inl e)) = rw e
same_query p (inr (inr m)) = absurd m

output_cache_transparent_example :
    process_builds loop_config [] cycle ≡ process_each loop_config cycle
output_cache_transparent_example = output_cache_transparent loop_config query cycle same_query

dispatches_kvm_build : (process_build loop_config replies kvm_build []).effects ≡ dispatch 7 ∷ []
unfolding process_build circus.RunnerLoop.Stages.dedup_stage
    circus.RunnerLoop.Stages.is_interval_rebuild circus.RunnerLoop.Stages.fod_stage
    circus.RunnerLoop.Stages.fod_output circus.RunnerLoop.Stages.failed_paths_stage
    circus.RunnerLoop.Stages.dependency_stage circus.RunnerLoop.Body.unsupported_stage
    circus.RunnerLoop.Body.wait_or_end circus.RunnerLoop.Body.has_builder
    circus.RunnerLoop.Body.has_agent circus.Rpc.Agent.contains snapshot
    circus.Rpc.Agent.supports_features circus.Models.Rows.scheduling_features
    circus.RunnerLoop.Body.one_at_a_time_stage
dispatches_kvm_build = refl

abbrev nightly : LoopAnswers
nightly = record replies {
  trigger_evaluation = λ id. answered (record {
    id = id;
    jobset_id = 5;
    trigger_kind = interval;
    pr_number = none;
    pr_head_branch = none;
    pr_base_branch = none;
  });
}

nightly_is_interval : is_interval_rebuild nightly kvm_build ≡ true
unfolding is_interval_rebuild
nightly_is_interval = refl

abbrev one_pending : List Pending
one_pending = record { build = kvm_build; answers = replies } ∷ []

dispatched-In_cycle : In (dispatch 7) (process_builds loop_config [] one_pending)
unfolding process_builds
dispatched-In_cycle = rw dispatches_kvm_build (inl refl)
