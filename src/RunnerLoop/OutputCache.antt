-- ===== src/RunnerLoop/OutputCache.antt =====
-- crates/queue-runner/src/runner_loop.rs: the cache of fixed outputs changes no decision of a cycle.
use circus.Common.{
  ◌≡◌, refl, List, [], ◌∷◌, ◌++◌, Option, some, String, arith, In, inl, inr, ap, subst, sym,
  Option-cases, Bool, eq_iff,
}
use circus.Models.Rows.{Build}
use circus.RunnerLoop.{Effect, LoopAnswers, FodCache, lookup}
use circus.RunnerLoop.Stages.{is_interval_rebuild, fod_output}
use circus.RunnerLoop.Body.{LoopConfig, Pending, process_build, process_builds}

-- The cache holds what the query answers.
pub IsCoherent : (String → Option String) → FodCache → Type 0
IsCoherent query cache = (k : String) (v : Option String) → lookup cache k ≡ some v → v ≡ query k

module _ (a : LoopAnswers) (build : Build) where
  fod_output_lem :
      (interval_rebuild : Bool) (cache : FodCache)
      → IsCoherent a.query_drv_output cache
      → (fod_output a build interval_rebuild cache).output
        ≡ (fod_output a build interval_rebuild []).output
  unfolding fod_output lookup IsCoherent
  fod_output_lem interval_rebuild cache h = elim (Option-cases (lookup cache build.drv_path)) [
    | inl e ↦ ground (arith, e)
    | inr (v, e) ↦ ground (arith, e, h build.drv_path v e)
  ]

  fod_output-IsCoherent :
      (interval_rebuild : Bool) (cache : FodCache)
      → IsCoherent a.query_drv_output cache
      → IsCoherent a.query_drv_output (fod_output a build interval_rebuild cache).cache
  unfolding fod_output lookup IsCoherent
  fod_output-IsCoherent interval_rebuild cache h k v e =
      let old = h k v in let same = eq_iff build.drv_path k in ground (arith, old, same, e)

nothing_cached : (query : String → Option String) → IsCoherent query []
unfolding IsCoherent lookup
nothing_cached query k v e = ground arith

module _ {F : Type 0} (cfg : LoopConfig F) where
  -- The same cycle without a cache: each build asks for itself.
  unfoldable pub process_each : List Pending → List Effect
  process_each [] = []
  process_each (p ∷ pending) =
      (process_build cfg p.answers p.build []).effects ++ process_each pending

  process_build_lem :
      (p : Pending) (cache : FodCache)
      → IsCoherent p.answers.query_drv_output cache
      → (process_build cfg p.answers p.build cache).effects
        ≡ (process_build cfg p.answers p.build []).effects
  unfolding process_build
  process_build_lem p cache h =
      rw (fod_output_lem p.answers p.build (is_interval_rebuild p.answers p.build) cache h)

  process_build-IsCoherent :
      (p : Pending) (cache : FodCache)
      → IsCoherent p.answers.query_drv_output cache
      → IsCoherent p.answers.query_drv_output (process_build cfg p.answers p.build cache).cache
  unfolding process_build IsCoherent
  process_build-IsCoherent p cache h k v e =
      let next =
        fod_output-IsCoherent p.answers p.build (is_interval_rebuild p.answers p.build) cache h k
          v in
      ground (arith, e, h k v, next)

  process_builds_lem :
      (query : String → Option String) (pending : List Pending) (cache : FodCache)
      → IsCoherent query cache
      → ((p : Pending) → In p pending → p.answers.query_drv_output ≡ query)
      → process_builds cfg cache pending ≡ process_each pending
  unfolding process_builds process_each
  process_builds_lem query [] cache h same = refl
  process_builds_lem query (p ∷ pending) cache h same =
      let e = same p (inl refl) in
      let here = subst (λ q. IsCoherent q cache) (sym e) h in
      let next =
        subst (λ q. IsCoherent q (process_build cfg p.answers p.build cache).cache) e
          (process_build-IsCoherent p cache here) in
      rw (process_build_lem p cache here) (
        ap (λ rest. (process_build cfg p.answers p.build []).effects ++ rest)
          (process_builds_lem query pending _ next (λ b m. same b (inr m))))

  -- If `nix-store --query` answers the same for a derivation throughout a cycle, the cycle with the
  -- cache does exactly what it would do if every build queried for itself.
  pub output_cache_transparent :
      (query : String → Option String) (pending : List Pending)
      → ((p : Pending) → In p pending → p.answers.query_drv_output ≡ query)
      → process_builds cfg [] pending ≡ process_each pending
  output_cache_transparent query pending same =
      process_builds_lem query pending [] (nothing_cached query) same
