-- ===== src/Worker/Run/Effects.antt =====
-- crates/queue-runner/src/worker.rs: which of the effects of a run tell of the end of the build.
use circus.Common.{ℕ, suc, ◌+◌, ◌≡◌, refl, List, [], ◌∷◌, ◌++◌, String, arith}
use circus.Models.Rows.{Build}
use circus.Worker.{BuildResult, Effect, notify_finished, persist_narinfos, RunAnswers}
use circus.Worker.Outputs.{store_outputs, create_products, signings, signing_effects}
use circus.Worker.Record.{upload_effects, size_metric, collect_metrics_and_alert}

-- The notices of the end of a build.
abbrev pub notices : List Effect → ℕ
notices [] = 0
notices (notify_finished id ∷ effects) = suc (notices effects)
notices (e ∷ effects) = notices effects

pub notices-append : (xs ys : List Effect) → notices (xs ++ ys) ≡ notices xs + notices ys
notices-append [] ys = omega arith
notices-append (x ∷ xs) ys = ground (arith, notices-append xs ys)

module _ (build : Build) where
  notices-store_outputs : (i : ℕ) (paths : List String) → notices (store_outputs build i paths) ≡ 0
  unfolding store_outputs
  notices-store_outputs i [] = refl
  notices-store_outputs i (path ∷ paths) = notices-store_outputs (suc i) paths

  module _ (a : RunAnswers) where
    notices-create_products :
        (i : ℕ) (paths : List String) → notices (create_products a build i paths).effects ≡ 0
    unfolding create_products
    notices-create_products i [] = refl
    notices-create_products i (path ∷ paths) = ground (arith, notices-create_products (suc i) paths)

    notices-signings : (paths : List String) → notices (signings a paths) ≡ 0
    notices-signings [] = refl
    notices-signings (path ∷ paths) = notices-signings paths

    notices-size_metric : (paths : List String) → notices (size_metric a build paths) ≡ 0
    notices-size_metric [] = refl
    notices-size_metric (path ∷ paths) = ground (arith, notices-size_metric paths)

    pub notices-collect :
        (paths : List String) → notices (collect_metrics_and_alert a build paths) ≡ 0
    unfolding collect_metrics_and_alert
    notices-collect paths = grind (arith, notices-size_metric paths, notices-append)

    pub notices-stored :
        (r : BuildResult)
        → notices (
            store_outputs build 0 r.output_paths
            ++ (create_products a build 0 r.output_paths).effects)
          ≡ 0
    notices-stored r = grind (
      arith,
      notices-append,
      notices-store_outputs 0 r.output_paths,
      notices-create_products 0 r.output_paths,
    )

    pub notices-published :
        (r : BuildResult)
        → notices (
            signing_effects a r.output_paths
            ++ (persist_narinfos build.id r.output_paths ∷ upload_effects a build r))
          ≡ 0
    unfolding signing_effects
    notices-published r = grind (arith, notices-append, notices-signings r.output_paths)
