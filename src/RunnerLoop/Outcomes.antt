-- ===== src/RunnerLoop/Outcomes.antt =====
-- crates/queue-runner/src/runner_loop.rs: what the loop can do with one pending build.
use circus.Common.{
  subst, sym, ◌≡◌, ◌⊎◌, Bool, true, false, inl, inr, refl, if◌then◌else◌, List, [], ◌∷◌, Option,
  none, some, String, arith,
}
use circus.Models.BuildStatus.{BuildStatus, succeeded, cached_failure, unsupported_system}
use circus.Models.Rows.{Build}
use circus.RunnerLoop.{
  Effect, start, complete, notify_finished, publish, dispatch, LoopAnswers, FodCache, ◌or_else◌,
}
use circus.RunnerLoop.Stages.{
  mark_build_done, aggregate_stage, dedup_stage, fod_output, is_interval_rebuild, fod_stage,
  failed_paths_stage, dependency_stage,
}
use circus.RunnerLoop.Body.{
  LoopConfig, wait_or_end, unsupported_stage, one_at_a_time_stage, process_build,
}

-- What holds of a stage's effects and of the rest's holds of the two together.
or_else_lem :
    (P : List Effect → Type 0) (stage : Option (List Effect)) (rest : List Effect)
    → ((e : List Effect) → stage ≡ some e → P e)
    → P rest
    → P (stage or_else rest)
or_else_lem P none rest f r = r
or_else_lem P (some e) rest f r = f e refl

if_lem :
    (P : List Effect → Type 0) (b : Bool) (x y : List Effect) → P x → P y → P (if b then x else y)
if_lem P true x y p q = p
if_lem P false x y p q = q

module _ {F : Type 0} (cfg : LoopConfig F) (a : LoopAnswers) (build : Build) where
  -- The build is ended with this status, and what may follow, follows.
  unfoldable pub EndsAs : BuildStatus → List Effect → Type 0
  EndsAs status effects =
      (log : Option String) × (output : Option String) × (message : Option String) × (after : List
        Effect)
      × (effects ≡ start build.id ∷ complete build.id status log output message ∷ after)
      × ((after ≡ [])
          ⊎ ((a.completes build.id ≡ true)
              × (status ≡ succeeded)
              × ((after ≡ notify_finished build.id ∷ [])
                  ⊎ ((paths : List String) × (after ≡ publish build.id paths ∷ [])))))

  unfoldable pub Fate : List Effect → Type 0
  Fate effects =
      (effects ≡ [])
      ⊎ (effects ≡ dispatch build.id ∷ [])
      ⊎ EndsAs succeeded effects
      ⊎ EndsAs cached_failure effects
      ⊎ EndsAs unsupported_system effects

  aggregate_stage-Fate : Fate (aggregate_stage a build)
  unfolding Fate EndsAs aggregate_stage mark_build_done
  aggregate_stage-Fate = ground arith

  dedup_stage-Fate :
      (interval_rebuild : Bool) (e : List Effect)
      → dedup_stage a build interval_rebuild ≡ some e
      → Fate e
  unfolding Fate EndsAs dedup_stage mark_build_done
  dedup_stage-Fate interval_rebuild e h = ground arith

  fod_stage-Fate :
      (output : Option String) (e : List Effect) → fod_stage a build output ≡ some e → Fate e
  unfolding Fate EndsAs fod_stage mark_build_done
  fod_stage-Fate output e h = ground arith

  failed_paths_stage-Fate :
      (enabled interval_rebuild : Bool) (e : List Effect)
      → failed_paths_stage a build enabled interval_rebuild ≡ some e
      → Fate e
  unfolding Fate EndsAs failed_paths_stage mark_build_done
  failed_paths_stage-Fate enabled interval_rebuild e h = ground arith

  dependency_stage-Fate : (e : List Effect) → dependency_stage a build ≡ some e → Fate e
  unfolding Fate dependency_stage
  dependency_stage-Fate e h = ground arith

  unsupported_stage-Fate : (e : List Effect) → unsupported_stage cfg a build ≡ some e → Fate e
  unfolding Fate EndsAs unsupported_stage wait_or_end mark_build_done
  unsupported_stage-Fate e h = ground arith

  one_at_a_time_stage-Fate : (e : List Effect) → one_at_a_time_stage cfg a build ≡ some e → Fate e
  unfolding Fate one_at_a_time_stage
  one_at_a_time_stage-Fate e h = ground arith

  dispatch-Fate : Fate (dispatch build.id ∷ [])
  unfolding Fate
  dispatch-Fate = inr (inl refl)

  stages-Fate :
      (interval_rebuild : Bool) (output : Option String)
      → Fate (
          dedup_stage a build interval_rebuild
          or_else fod_stage a build output
          or_else failed_paths_stage a build cfg.failed_paths_cache interval_rebuild
          or_else dependency_stage a build
          or_else unsupported_stage cfg a build
          or_else one_at_a_time_stage cfg a build
          or_else (dispatch build.id ∷ []))
  stages-Fate interval_rebuild output = or_else_lem Fate _ _ (dedup_stage-Fate interval_rebuild) (
      or_else_lem Fate _ _ (fod_stage-Fate output) (
        or_else_lem Fate _ _ (failed_paths_stage-Fate cfg.failed_paths_cache interval_rebuild) (
          or_else_lem Fate _ _ dependency_stage-Fate (
            or_else_lem Fate _ _ unsupported_stage-Fate
              (or_else_lem Fate _ _ one_at_a_time_stage-Fate dispatch-Fate)))))

  -- With each pending build the loop does one thing at most: it leaves the build pending, or
  -- dispatches it, or starts and completes it once, as succeeded, as a cached failure or as
  -- unsupported. Only a completion as succeeded that the database accepted is announced or published.
  pub process_build_outcomes : (cache : FodCache) → Fate (process_build cfg a build cache).effects
  unfolding process_build
  process_build_outcomes cache =
      if_lem Fate build.is_aggregate _ _ aggregate_stage-Fate (stages-Fate _ _)

  -- What the loop can do with an interval rebuild.
  pub Rebuilt : List Effect → Type 0
  Rebuilt effects =
      (effects ≡ []) ⊎ (effects ≡ dispatch build.id ∷ []) ⊎ EndsAs unsupported_system effects

  stages-Rebuilt : Rebuilt (
      dependency_stage a build
      or_else unsupported_stage cfg a build
      or_else one_at_a_time_stage cfg a build
      or_else (dispatch build.id ∷ []))
  unfolding Rebuilt EndsAs dependency_stage unsupported_stage one_at_a_time_stage wait_or_end
      mark_build_done
  stages-Rebuilt =
      or_else_lem Rebuilt (dependency_stage a build) _ (λ e h. ground arith)
        (or_else_lem Rebuilt (unsupported_stage cfg a build) _ (λ e h. ground arith)
          (or_else_lem Rebuilt (one_at_a_time_stage cfg a build) _ (λ e h. ground arith)
            (inr (inl refl))))

  skipped :
      (cache : FodCache)
      → let output = (fod_output a build true cache).output in
        (dedup_stage a build true ≡ none)
        × (fod_stage a build output ≡ none)
        × (failed_paths_stage a build cfg.failed_paths_cache true ≡ none)
  unfolding dedup_stage fod_output fod_stage failed_paths_stage
  skipped cache = ground arith

  skips :
      (cache : FodCache)
      → build.is_aggregate ≡ false
      → is_interval_rebuild a build ≡ true
      → (process_build cfg a build cache).effects ≡ (
          dependency_stage a build
          or_else unsupported_stage cfg a build
          or_else one_at_a_time_stage cfg a build
          or_else (dispatch build.id ∷ []))
  unfolding process_build
  skips cache n h = ground (arith, skipped cache, n, h)

  -- A build of an interval evaluation that is no aggregate is left pending, dispatched, or ended as
  -- unsupported: no earlier result, no valid output and no cached failure ends it.
  interval_rebuild_outcomes :
      (cache : FodCache)
      → build.is_aggregate ≡ false
      → is_interval_rebuild a build ≡ true
      → Rebuilt (process_build cfg a build cache).effects
  interval_rebuild_outcomes cache n h = subst Rebuilt (sym (skips cache n h)) stages-Rebuilt
