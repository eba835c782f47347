-- ===== src/RunnerLoop/Cycle.antt =====
-- crates/queue-runner/src/runner_loop.rs: what a whole cycle does.
use circus.Common.{In-append_iff, ◌≡◌, inl, inr, refl, List, [], ◌∷◌, arith, In}
use circus.Models.BuildStatus.{BuildStatus}
use circus.Models.Rows.{Build}
use circus.Rpc.Agent.{Uuid}
use circus.RunnerLoop.{
  Effect, start, complete, notify_finished, publish, dispatch, LoopAnswers, FodCache,
}
use circus.RunnerLoop.Body.{LoopConfig, Pending, process_build, process_builds}
use circus.RunnerLoop.Outcomes.{EndsAs, Fate, process_build_outcomes}

-- The build that an effect is about.
abbrev pub effect_build : Effect → Uuid
effect_build (start id) = id
effect_build (complete id status log output message) = id
effect_build (notify_finished id) = id
effect_build (publish id paths) = id
effect_build (dispatch id) = id

module _ {F : Type 0} (cfg : LoopConfig F) where
  EndsAs-effect_build :
      (a : LoopAnswers) (build : Build) (status : BuildStatus) (effects : List Effect) (e : Effect)
      → EndsAs cfg a build status effects
      → In e effects
      → effect_build e ≡ build.id
  unfolding EndsAs
  EndsAs-effect_build a build status effects e h m = ground (arith, h, m)

  process_build-effect_build :
      (a : LoopAnswers) (build : Build) (cache : FodCache) (e : Effect)
      → In e (process_build cfg a build cache).effects
      → effect_build e ≡ build.id
  unfolding Fate
  process_build-effect_build a build cache e m = elim (process_build_outcomes cfg a build cache) [
    | inl h ↦ ground (arith, h, m)
    | inr (inl h) ↦ ground (arith, h, m)
    | inr (inr (inl h)) ↦ EndsAs-effect_build a build _ _ e h m
    | inr (inr (inr (inl h))) ↦ EndsAs-effect_build a build _ _ e h m
    | inr (inr (inr (inr h))) ↦ EndsAs-effect_build a build _ _ e h m
  ]

  -- Every effect of a cycle is about one of the builds that were pending when it began.
  cycle_effects_pending :
      (cache : FodCache) (pending : List Pending) (e : Effect)
      → In e (process_builds cfg cache pending)
      → (p : Pending) × In p pending × (effect_build e ≡ p.build.id)
  unfolding process_builds
  cycle_effects_pending cache [] e m = absurd m
  cycle_effects_pending cache (p ∷ pending) e m =
      let done = process_build cfg p.answers p.build cache in
      elim ((In-append_iff e done.effects (process_builds cfg done.cache pending)).0 m) [
        | inl here ↦ (p, inl refl, process_build-effect_build p.answers p.build cache e here)
        | inr later ↦
            let (q, k, same) = cycle_effects_pending done.cache pending e later in (q, inr k, same)
      ]
