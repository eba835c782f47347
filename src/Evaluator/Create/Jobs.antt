-- ===== src/Evaluator/Create/Jobs.antt =====
-- crates/evaluator/src/builds.rs, `create_builds_from_eval`: the jobs for which builds are created.
use circus.Common.{
  ◌≡◌, ◌⊎◌, inl, inr, refl, ap, sym, ◌∙◌, subst, true, List, Option, some, String, arith, In,
  In-append_iff, In-map, map-In, In-retain, retain-In, All-In, Bool-cases, some_inj,
}
use circus.Rpc.Agent.{contains}
use circus.Rpc.Agent.Features.{contains_iff}
use circus.Systems.{system_allowed}
use circus.Evaluator.Graph.{
  NixJob, DerivationInfo, Derivations, Check, get, items, paths_of, dependency_job,
  should_enqueue_derivation, invalid_output_paths,
}
use circus.Evaluator.Graph.Expands.{IsWanted, IsReached, input_of_job, input_of_derivation}
use circus.Evaluator.Graph.Reach.{IsExpansion, expand_derivation_graph-IsExpansion}
use circus.Evaluator.Graph.Rebuilt.{In-inputs_of}
use circus.Evaluator.Create.{allowed_jobs, jobs_of_eval}

-- The expansion of the allowed jobs, less the derivations for other systems.
pub record IsKept (allowed : Option (List String)) (derivations : Derivations) (check : Check)
    (jobs kept : List NixJob) : Type 0 where
  pub expanded : List NixJob
  pub expansion :
      IsExpansion
        (allowed_jobs allowed jobs)
        derivations
        (invalid_output_paths derivations check)
        expanded
  pub filtered : kept ≡ allowed_jobs allowed expanded

pub jobs_of_eval-IsKept :
    (allowed : Option (List String)) (derivations : Derivations) (check : Check)
    (jobs : List NixJob)
    → (kept : List NixJob) × (jobs_of_eval allowed derivations check jobs ≡ some kept)
      × IsKept allowed derivations check jobs kept
unfolding jobs_of_eval
jobs_of_eval-IsKept allowed derivations check jobs =
    let (out, e, expansion) =
      expand_derivation_graph-IsExpansion (allowed_jobs allowed jobs) derivations check in
    (
      allowed_jobs allowed out,
      ground (arith, e),
      record { expanded = out; expansion = expansion; filtered = refl },
    )

module _ (allowed : Option (List String)) (derivations : Derivations) (check : Check)
    (jobs kept : List NixJob) (k : IsKept allowed derivations check jobs kept) where
  abbrev named : List NixJob
  named = allowed_jobs allowed jobs

  abbrev invalid : List String
  invalid = invalid_output_paths derivations check

  In-kept :
      (job : NixJob) → In job k.expanded → system_allowed job.system allowed ≡ true → In job kept
  In-kept job m h =
      subst (λ l. In job l) (sym k.filtered)
        (In-retain (λ j. system_allowed j.system allowed) job k.expanded m h)

  In-expanded : (job : NixJob) → In job named ⊎ In job k.expansion.added → In job k.expanded
  In-expanded job m =
      subst (λ l. In job l) (sym k.expansion.appended)
        ((In-append_iff job named k.expansion.added).1 m)

  -- An input that has to be built and is no job is reached.
  input-IsReached :
      (job : NixJob) (drv : String) (info : DerivationInfo)
      → In job kept
      → In drv (items job.input_drvs)
      → IsWanted named derivations invalid drv info
      → IsReached named derivations invalid drv
  unfolding dependency_job
  input-IsReached job drv info m i w =
      let (here, _) =
        retain-In (λ j. system_allowed j.system allowed) job k.expanded
          (subst (λ l. In job l) k.filtered m) in
      elim ((In-append_iff job named k.expansion.added).0
        (subst (λ l. In job l) k.expansion.appended here)) [
          | inl n ↦ input_of_job drv info (In-inputs_of drv job named n i) w
          | inr n ↦
              let (above, g, e) = All-In _ job k.expansion.added k.expansion.made n in
              let path = In-map (λ j. j.drv_path) job k.expansion.added n in
              input_of_derivation job.drv_path drv info above
                ((k.expansion.reached job.drv_path).0 path) g
                (subst (λ x. In drv (items x)) (ap (λ j. j.input_drvs) e) i) w
        ]

  added_job :
      (drv : String) (info : DerivationInfo)
      → In drv (paths_of k.expansion.added)
      → get derivations drv ≡ some info
      → (other : NixJob) × In other k.expansion.added
        × (other.drv_path ≡ drv)
        × (other.system ≡ info.system)
  unfolding dependency_job
  added_job drv info m g =
      let (other, n, e) = map-In (λ j. j.drv_path) drv k.expansion.added m in
      let (own, h, made) = All-In _ other k.expansion.added k.expansion.made n in
      let same : own ≡ info = some_inj (sym h ∙ subst (λ x. get derivations x ≡ some info) e g) in
      (other, n, sym e, ap (λ j. j.system) made ∙ ap (λ x. x.system) same)

  -- What a job that is kept needs is kept as well, unless it is for another system.
  pub input-In-kept :
      (job : NixJob) (drv : String) (info : DerivationInfo)
      → In job kept
      → In drv (items job.input_drvs)
      → get derivations drv ≡ some info
      → should_enqueue_derivation info (invalid_output_paths derivations check) ≡ true
      → system_allowed info.system allowed ≡ true
      → (other : NixJob) × In other kept × (other.drv_path ≡ drv)
  input-In-kept job drv info m i g b s = elim (Bool-cases (contains (paths_of named) drv)) [
    | inl c ↦
        let (other, n, e) =
          map-In (λ j. j.drv_path) drv named ((contains_iff (paths_of named) drv).0 c) in
        let (_, fits) = retain-In (λ j. system_allowed j.system allowed) other jobs n in
        (other, In-kept other (In-expanded other (inl n)) fits, sym e)
    | inr c ↦
        let wanted : IsWanted named derivations invalid drv info = record {
          no_job = λ n. ground (arith, c, (contains_iff (paths_of named) drv).1 n);
          known = g;
          has_to_be_built = b;
        } in
        let found = (k.expansion.reached drv).1 (input-IsReached job drv info m i wanted) in
        let (other, n, e, system) = added_job drv info found g in
        (
          other,
          In-kept other (In-expanded other (inr n))
              (subst (λ x. system_allowed x allowed ≡ true) (sym system) s),
          e,
        )
  ]
