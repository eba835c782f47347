-- ===== src/Worker/Execute/Builders.antt =====
-- crates/queue-runner/src/worker.rs, `try_remote_build`: which SSH builder runs a build.
use circus.Common.{
  ◌≡◌, refl, ◌↔◌, inl, inr, true, false, List, [], ◌∷◌, none, some, String, ok, err, arith,
  Bool-cases, Result-cases,
}
use circus.Models.Rows.{Build, scheduling_features}
use circus.Dispatch.Caps.{RemoteBuilder}
use circus.Dispatch.Venue.{VenueContext, any_builder}
use circus.Worker.{BuildResult, RunAnswers}
use circus.Worker.Execute.{is_skipped, try_builders}

module _ {D : Type 0} (ctx : VenueContext D) (a : RunAnswers) (build : Build) where
  -- The first builder that is not skipped and whose run succeeds gives the result.
  pub data FirstToRun : List RemoteBuilder → BuildResult → Type 0 where
    here :
        {b : RemoteBuilder} {bs : List RemoteBuilder} {r : BuildResult}
        → is_skipped ctx a build b ≡ false
        → a.remote_run b ≡ ok r
        → FirstToRun (b ∷ bs) r
    skipped :
        {b : RemoteBuilder} {bs : List RemoteBuilder} {r : BuildResult}
        → is_skipped ctx a build b ≡ true
        → FirstToRun bs r
        → FirstToRun (b ∷ bs) r
    failing :
        {b : RemoteBuilder} {bs : List RemoteBuilder} {r : BuildResult} {e : String}
        → a.remote_run b ≡ err e
        → FirstToRun bs r
        → FirstToRun (b ∷ bs) r

  -- The same, with the builder that ran.
  pub data RunsOn : List RemoteBuilder → RemoteBuilder → BuildResult → Type 0 where
    runs_here :
        {b : RemoteBuilder} {bs : List RemoteBuilder} {r : BuildResult}
        → is_skipped ctx a build b ≡ false
        → a.remote_run b ≡ ok r
        → RunsOn (b ∷ bs) b r
    after_skipped :
        {b c : RemoteBuilder} {bs : List RemoteBuilder} {r : BuildResult}
        → is_skipped ctx a build b ≡ true
        → RunsOn bs c r
        → RunsOn (b ∷ bs) c r
    after_failing :
        {b c : RemoteBuilder} {bs : List RemoteBuilder} {r : BuildResult} {e : String}
        → is_skipped ctx a build b ≡ false
        → a.remote_run b ≡ err e
        → RunsOn bs c r
        → RunsOn (b ∷ bs) c r

  FirstToRun-RunsOn :
      (builders : List RemoteBuilder) (r : BuildResult)
      → FirstToRun builders r
      → (b : RemoteBuilder) × RunsOn builders b r
  FirstToRun-RunsOn _ r (here {b} {bs} n k) = (b, runs_here n k)
  FirstToRun-RunsOn _ r (skipped {b} {bs} y f) =
      let (c, on) = FirstToRun-RunsOn bs r f in (c, after_skipped y on)
  FirstToRun-RunsOn _ r (failing {b} {bs} k f) =
      let (c, on) = FirstToRun-RunsOn bs r f in
      elim (Bool-cases (is_skipped ctx a build b)) [
        | inl y ↦ (c, after_skipped y on)
        | inr n ↦ (c, after_failing n k on)
      ]

  -- The builder that ran was not skipped, and the result is what its run gave.
  pub RunsOn-ran :
      (builders : List RemoteBuilder) (b : RemoteBuilder) (r : BuildResult)
      → RunsOn builders b r
      → (is_skipped ctx a build b ≡ false) × (a.remote_run b ≡ ok r)
  RunsOn-ran _ b r (runs_here n k) = (n, k)
  RunsOn-ran _ b r (after_skipped {bs} y on) = RunsOn-ran bs b r on
  RunsOn-ran _ b r (after_failing {bs} n k on) = RunsOn-ran bs b r on

  FirstToRun-sound :
      (builders : List RemoteBuilder) (r : BuildResult)
      → FirstToRun builders r
      → (try_builders ctx a build builders).outcome ≡ some r
  unfolding try_builders is_skipped
  FirstToRun-sound _ r (here {b} {bs} n k) = ground (arith, n, k)
  FirstToRun-sound _ r (skipped {b} {bs} y f) = ground (arith, y, FirstToRun-sound bs r f)
  FirstToRun-sound _ r (failing {b} {bs} k f) = ground (arith, k, FirstToRun-sound bs r f)

  FirstToRun-complete :
      (builders : List RemoteBuilder) (r : BuildResult)
      → (try_builders ctx a build builders).outcome ≡ some r
      → FirstToRun builders r
  unfolding try_builders
  FirstToRun-complete [] r h = cc
  FirstToRun-complete (b ∷ bs) r h = elim (Bool-cases (is_skipped ctx a build b)) [
    | inl y ↦ skipped y (FirstToRun-complete bs r (ground (arith, y, h)))
    | inr n ↦ elim (Result-cases (a.remote_run b)) [
      | inl (q, k) ↦ here n (ground (arith, n, k, h))
      | inr (e, k) ↦ failing k (FirstToRun-complete bs r (ground (arith, n, k, h)))
    ]
  ]

  -- A remote build has a result exactly when some builder of the list is not skipped and succeeds, and
  -- it is that of the first such builder: of those before it, each is skipped or its run failed.
  pub try_builders-FirstToRun :
      (builders : List RemoteBuilder) (r : BuildResult)
      → ((try_builders ctx a build builders).outcome ≡ some r) ↔ FirstToRun builders r
  try_builders-FirstToRun builders r = (FirstToRun-complete builders r, FirstToRun-sound builders r)

  -- The result of a remote build comes from one builder of the list: those before it were skipped or
  -- failed.
  pub try_builders-RunsOn :
      (builders : List RemoteBuilder) (r : BuildResult)
      → (try_builders ctx a build builders).outcome ≡ some r
      → (b : RemoteBuilder) × RunsOn builders b r
  try_builders-RunsOn builders r h = FirstToRun-RunsOn builders r (FirstToRun-complete builders r h)

  -- A list in which `reserve_venue` finds no builder is one in which the run tries none: the two loops
  -- skip the same builders.
  try_builders-any_builder :
      (builders : List RemoteBuilder)
      → any_builder ctx (scheduling_features build) builders ≡ false
      → try_builders ctx a build builders ≡ record { outcome = none; effects = [] }
  unfolding try_builders is_skipped any_builder
  try_builders-any_builder [] h = refl
  try_builders-any_builder (b ∷ bs) h = ground (arith, try_builders-any_builder bs)
