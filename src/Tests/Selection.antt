-- ===== src/Tests/Selection.antt =====
-- Tests of the choice of an agent and of a venue.
use circus.Common.{◌≡◌, ◌↔◌, ◌⊎◌, ℕ, ◌≤◌, refl, true, [], ◌∷◌, none, some, arith, inl, ltb}
use circus.Common.Float.{whole_floats}
use circus.Common.Sort.{sort_by}
use circus.Types.AuthKind.{oidc}
use circus.Models.Rows.{scheduling_features}
use circus.Rpc.Agent.{
  AgentSnapshot, snapshot, try_acquire_slot, contended_surplus, write, with_jobs, Heap, contains,
  supports_features, requires_trusted_ref,
}
use circus.Rpc.Pool.{candidates_for}
use circus.Rpc.Pool.Candidates.{IsCandidate}
use circus.Dispatch.Trust.{TrustedBuildContext, candidate_allowed_for_trusted_build}
use circus.Dispatch.Caps.{RemoteBuilder}
use circus.Dispatch.Select.{
  answered, Answers, SelectContext, dynamic, Reserved, select_and_reserve_agent, eligible_agents,
  trust_filter, passes_pressure, cutoff, preference, strategy_order, reserve_first,
}
use circus.Dispatch.Select.Eligible.{IsEligible}
use circus.Dispatch.Select.Reservation.{
  reserved-IsEligible, none_reserved_only_if_full, reserved_has_least_surplus,
}
use circus.Dispatch.Venue.{VenueContext, agent, runner, reserve_on_agent, reserve_venue}
use circus.Dispatch.Venue.Usable.{IsOpen}
use circus.Dispatch.Venue.Choice.{IsReachable, reserve_venue_exact}
use circus.Tests.{agents, two_agents, kvm_build, linux}

abbrev oidc_agent : AgentSnapshot ℕ
oidc_agent = record (snapshot (agents 1) 1) { auth_kind = oidc; oidc_repository = some "a/b" }

abbrev forked : TrustedBuildContext
forked = record { repository = some "c/b" }

abbrev context : SelectContext whole_floats
context = record {
  psi_threshold = some 50;
  heartbeat_ttl = 60;
  now = 100;
  scheduling_strategy = dynamic;
}

-- Someone waits for a builder with big-parallel.
abbrev replies : Answers
replies = record {
  trusted_build_context = λ b. none;
  is_schedulable = λ machine. answered true;
  pending_feature_demand = λ system. answered ("big-parallel" ∷ []);
}

abbrev quiet : Heap ℕ → Heap ℕ
quiet heap = heap

-- Agent 2 is taken: it lacks the feature that is waited for.
abbrev reservation : Reserved whole_floats
reservation = record {
  chosen = (2, snapshot (agents 2) 0);
  heap = write agents 2 (with_jobs (agents 2) 1);
}

reserves_agent_2 :
    select_and_reserve_agent whole_floats context replies quiet agents two_agents kvm_build linux
    ≡ some reservation
unfolding select_and_reserve_agent candidates_for eligible_agents trust_filter passes_pressure
    cutoff preference strategy_order reserve_first try_acquire_slot contains supports_features
    contended_surplus scheduling_features snapshot sort_by requires_trusted_ref
reserves_agent_2 = refl

agent_1-IsCandidate : IsCandidate agents two_agents linux (1, snapshot (agents 1) 1)
unfolding contains
agent_1-IsCandidate = record {
  key = 1;
  registered = inl refl;
  serves = refl;
  free = omega arith;
  taken = refl;
}

agent_1-IsEligible : IsEligible whole_floats context replies kvm_build (1, snapshot (agents 1) 1)
unfolding passes_pressure cutoff supports_features contains scheduling_features
    candidate_allowed_for_trusted_build requires_trusted_ref snapshot
agent_1-IsEligible = record { calm = refl; able = refl; trusted = refl; schedulable = refl }

reserved-IsEligible_example :
    IsCandidate agents two_agents linux reservation.chosen
    × IsEligible whole_floats context replies kvm_build reservation.chosen
    × (try_acquire_slot 2 agents ≡ some reservation.heap)
reserved-IsEligible_example =
    reserved-IsEligible whole_floats context replies quiet agents two_agents kvm_build linux
      reservation reserves_agent_2

-- Other tasks take every slot before the reservation is tried.
abbrev busy : Heap ℕ → Heap ℕ
busy heap h = with_jobs (heap h) 4

reserves_nothing :
    select_and_reserve_agent whole_floats context replies busy agents two_agents kvm_build linux
    ≡ none
unfolding select_and_reserve_agent candidates_for eligible_agents trust_filter passes_pressure
    cutoff preference strategy_order reserve_first try_acquire_slot contains supports_features
    contended_surplus scheduling_features snapshot sort_by requires_trusted_ref
reserves_nothing = refl

none_reserved_only_if_full_example : (busy agents 1).max_jobs ≤ (busy agents 1).current_jobs
none_reserved_only_if_full_example =
    none_reserved_only_if_full whole_floats context replies busy agents two_agents kvm_build linux
      (1, snapshot (agents 1) 1) reserves_nothing agent_1-IsCandidate agent_1-IsEligible

reserved_has_least_surplus_example :
    contended_surplus reservation.chosen.1 (scheduling_features kvm_build) ("big-parallel" ∷ [])
    ≤ contended_surplus
        (snapshot (agents 1) 1)
        (scheduling_features kvm_build)
        ("big-parallel" ∷ [])
reserved_has_least_surplus_example =
    reserved_has_least_surplus whole_floats context replies quiet agents two_agents kvm_build linux
      reservation (1, snapshot (agents 1) 1) reserves_agent_2 agent_1-IsCandidate agent_1-IsEligible
      (omega arith)

abbrev ssh_builder : RemoteBuilder
ssh_builder = record {
  id = 31;
  ssh_uri = "ssh://builder";
  supported_features = "kvm" ∷ [];
  mandatory_features = [];
  public_host_key = some "key";
}

abbrev venues : VenueContext ℕ
venues = record {
  above = λ a b. ltb b a;
  runner_caps = record { enabled = true; systems = linux ∷ []; features = [] };
  require_host_key = true;
  psi_threshold = some 50;
  pressure_of = λ uri. none;
  builders_for = λ system. answered (ssh_builder ∷ []);
}

reserve_venue_exact_example :
    let reserved =
      reserve_on_agent whole_floats context replies quiet agents two_agents kvm_build
        (some linux) in
    let features = scheduling_features kvm_build in
    let outcome =
      reserve_venue whole_floats venues context replies quiet agents two_agents kvm_build
        (some linux) in
    let admits =
      IsOpen venues.runner_caps (some linux) features ⊎ IsReachable venues features (some linux) in
    ((outcome ≡ some (agent reservation)) ↔ (reserved ≡ some reservation))
    × ((outcome ≡ some runner) ↔ ((reserved ≡ none) × admits))
    × ((outcome ≡ none) ↔ ((reserved ≡ none) × (admits → ⊥)))
reserve_venue_exact_example =
    reserve_venue_exact whole_floats venues context replies quiet agents two_agents kvm_build
      (some linux) reservation
