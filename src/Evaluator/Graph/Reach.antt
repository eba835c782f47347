-- ===== src/Evaluator/Graph/Reach.antt =====
-- crates/evaluator/src/builds.rs, `expand_derivation_graph`: which derivations become jobs.
use circus.Common.{
  ℕ, zero, suc, ◌+◌, ◌<◌, ◌≡◌, ◌↔◌, inl, inr, refl, sym, ap, ◌∙◌, subst, List, [], ◌∷◌, ◌++◌, some,
  String, arith, In, All, length, length-append, In-append_iff, append_nil, Bool-cases,
  Option-cases, some_inj,
}
use circus.Rpc.Agent.{contains}
use circus.Rpc.Agent.Features.{contains_iff}
use circus.Evaluator.Graph.{
  NixJob, DerivationInfo, Derivations, get, items, should_enqueue_derivation, dependency_job,
  paths_of, inputs_of, expand_queued, all_inputs, expand_jobs, expand_derivation_graph,
  invalid_output_paths, Check,
}
use circus.Evaluator.Graph.Pending.{pending, pending-le, pending-add}
use circus.Evaluator.Graph.Expands.{
  IsWanted, IsReached, input_of_job, input_of_derivation, IsMade, Fresh, Expands, IsState,
  skipped-Expands, added-Expands, added-IsState,
}

module _ (jobs : List NixJob) (derivations : Derivations) (invalid : List String) where
  -- The loop with enough fuel for its queue and for what it may yet queue.
  expand_queued-Expands :
      (fuel : ℕ) (included queued : List String) (expanded : List NixJob)
      → length queued + pending included derivations < fuel
      → IsState jobs derivations invalid included queued
      → (out : List NixJob) × (expand_queued derivations invalid fuel included queued expanded
          ≡ some out)
        × Expands jobs derivations invalid included queued expanded out
  unfolding expand_queued
  expand_queued-Expands zero included queued expanded f s = absurd (omega (arith, f))
  expand_queued-Expands (suc fuel) included [] expanded f s = (
    expanded,
    refl,
    record {
      added = [];
      appended = sym (append_nil expanded);
      fresh = tt;
      made = tt;
      reached = λ d m. absurd m;
      closed = λ d i m g h. elim m [ inl k ↦ absurd k | inr k ↦ absurd k ];
    },
  )
  expand_queued-Expands (suc fuel) included (drv ∷ queued) expanded f s =
      let rest =
        expand_queued-Expands fuel included queued expanded (omega (arith, f))
          record { jobs_in = s.jobs_in; candidates = λ d m. s.candidates d (inr m) } in
      elim (Bool-cases (contains included drv)) [
        | inl c ↦
            let (out, e, r) = rest in
            (
              out,
              rw c e,
              skipped-Expands jobs derivations invalid drv included queued expanded out
                  (λ i g h. (contains_iff included drv).0 c) r,
            )
        | inr c ↦ elim (Option-cases (get derivations drv)) [
          | inl n ↦
              let (out, e, r) = rest in
              (
                out,
                rw (c, n) e,
                skipped-Expands jobs derivations invalid drv included queued expanded out
                    (λ i g h. absurd (ground (arith, n, g))) r,
              )
          | inr (info, g) ↦ elim (Bool-cases (should_enqueue_derivation info invalid)) [
            | inr b ↦
                let (out, e, r) = rest in
                (
                  out,
                  rw (c, g, b) e,
                  skipped-Expands jobs derivations invalid drv included queued expanded out
                      (λ i k h. absurd (ground (arith, g, k, h, b))) r,
                )
            | inl b ↦
                let new : In drv included → ⊥ =
                  λ m. ground (arith, c, (contains_iff included drv).1 m) in
                let wanted : IsWanted jobs derivations invalid drv info = record {
                  no_job = λ m. new (s.jobs_in drv m);
                  known = g;
                  has_to_be_built = b;
                } in
                let here = s.candidates drv (inl refl) info wanted in
                let (out, e, r) =
                  expand_queued-Expands fuel (drv ∷ included) (queued ++ items info.input_drvs)
                    (expanded ++ (dependency_job drv info ∷ []))
                    (omega (
                      arith,
                      f,
                      length-append queued (items info.input_drvs),
                      pending-add drv info included derivations g c,
                    ))
                    (added-IsState jobs derivations invalid drv info included queued s here g) in
                (
                  out,
                  rw (c, g, b) e,
                  added-Expands jobs derivations invalid drv info included queued expanded out
                      wanted here new r,
                )
          ]
        ]
      ]

  input-In-added :
      (above drv : String) (info : DerivationInfo) (added : List NixJob)
      → All (IsMade jobs derivations invalid) added
      → In above (paths_of added)
      → get derivations above ≡ some info
      → In drv (items info.input_drvs)
      → In drv (inputs_of added)
  unfolding dependency_job
  input-In-added above drv info [] made m g i = absurd m
  input-In-added above drv info (j ∷ added) ((own, k, e), made) (inl here) g i =
      let same : own ≡ info =
        some_inj (sym k ∙ subst (λ x. get derivations x ≡ some info) here g) in
      (In-append_iff drv (items j.input_drvs) _).1 (
        inl (
          subst (λ x. In drv (items x))
            (ap (λ x. x.input_drvs) (sym same) ∙ ap (λ x. x.input_drvs) (sym e)) i))
  input-In-added above drv info (j ∷ added) (_, made) (inr m) g i =
      (In-append_iff drv (items j.input_drvs) _).1
        (inr (input-In-added above drv info added made m g i))

  reached-In-added :
      (out : List NixJob)
      (r : Expands jobs derivations invalid (paths_of jobs) (inputs_of jobs) jobs out)
      (drv : String)
      → IsReached jobs derivations invalid drv
      → In drv (paths_of r.added)
  reached-In-added out r drv (input_of_job _ info i w) =
      elim (r.closed drv info (inl i) w.known w.has_to_be_built) [
        | inl k ↦ absurd (w.no_job k)
        | inr k ↦ k
      ]
  reached-In-added out r drv (input_of_derivation above _ info above_info up g i w) =
      let below =
        input-In-added above drv above_info r.added r.made (reached-In-added out r above up) g i in
      elim (r.closed drv info (inr below) w.known w.has_to_be_built) [
        | inl k ↦ absurd (w.no_job k)
        | inr k ↦ k
      ]

  -- The jobs, and after them one for each derivation that is reached.
  pub record IsExpansion (out : List NixJob) : Type 0 where
    pub added : List NixJob
    pub appended : out ≡ jobs ++ added
    pub fresh : Fresh jobs derivations invalid (paths_of jobs) (paths_of added)
    pub made : All (IsMade jobs derivations invalid) added
    pub reached : (drv : String) → In drv (paths_of added) ↔ IsReached jobs derivations invalid drv

  expand_jobs-IsExpansion :
      (out : List NixJob) × (expand_jobs jobs derivations invalid ≡ some out) × IsExpansion out
  unfolding expand_jobs
  expand_jobs-IsExpansion =
      let (out, e, r) =
        expand_queued-Expands (suc (length (inputs_of jobs) + all_inputs derivations))
          (paths_of jobs) (inputs_of jobs) jobs
          (omega (arith, pending-le (paths_of jobs) derivations))
          record { jobs_in = λ drv m. m; candidates = λ drv m info w. input_of_job drv info m w } in
      (
        out,
        e,
        record {
          added = r.added;
          appended = r.appended;
          fresh = r.fresh;
          made = r.made;
          reached = λ drv. (r.reached drv, reached-In-added out r drv);
        },
      )

-- Without derivations nothing is reached.
none_reached :
    (jobs : List NixJob) (invalid : List String) (drv : String) → IsReached jobs [] invalid drv → ⊥
unfolding get
none_reached jobs invalid drv (input_of_job _ info i w) = absurd (ground (arith, w.known))
none_reached jobs invalid drv (input_of_derivation above _ info above_info up g i w) =
    absurd (ground (arith, w.known))

-- The expansion of the jobs ends, whatever depends on what: it keeps the jobs and appends exactly one job
-- for each known derivation that has to be built, is no job itself, and is an input of a job or of
-- another derivation that is appended; the job has the derivation's system, outputs and inputs.
pub expand_derivation_graph-IsExpansion :
    (jobs : List NixJob) (derivations : Derivations) (check : Check)
    → (out : List NixJob) × (expand_derivation_graph jobs derivations check ≡ some out)
      × IsExpansion jobs derivations (invalid_output_paths derivations check) out
unfolding expand_derivation_graph
expand_derivation_graph-IsExpansion jobs [] check = (
  jobs,
  refl,
  record {
    added = [];
    appended = sym (append_nil jobs);
    fresh = tt;
    made = tt;
    reached = λ drv. (λ m. absurd m, none_reached jobs (invalid_output_paths [] check) drv);
  },
)
expand_derivation_graph-IsExpansion jobs ((drv, info) ∷ derivations) check =
    expand_jobs-IsExpansion jobs ((drv, info) ∷ derivations)
      (invalid_output_paths ((drv, info) ∷ derivations) check)
