-- ===== src/Evaluator/Graph/Rebuilt.antt =====
-- crates/evaluator/src/builds.rs, `expand_derivation_graph`: derivations that are not in the store are built.
use circus.Common.{
  ◌≡◌, ◌⊎◌, inl, inr, refl, sym, ap, ◌∙◌, subst, List, [], ◌∷◌, ◌++◌, some, String, arith, In,
  All-In, In-map, In-append_iff, Bool-cases, some_inj, eq_iff, true,
}
use circus.Rpc.Agent.{contains}
use circus.Rpc.Agent.Features.{contains_iff}
use circus.Evaluator.Graph.{
  NixJob, DerivationInfo, Derivations, Check, get, items, values, paths_of, inputs_of,
  dependency_job, should_enqueue_derivation, expand_derivation_graph, invalid_output_paths,
}
use circus.Evaluator.Graph.Invalid.{Unvouched, Unvouched-enqueued}
use circus.Evaluator.Graph.Expands.{IsWanted, IsReached, input_of_job, input_of_derivation}
use circus.Evaluator.Graph.Reach.{IsExpansion, expand_derivation_graph-IsExpansion}

get-In :
    (derivations : Derivations) (drv : String) (info : DerivationInfo)
    → get derivations drv ≡ some info
    → In (drv, info) derivations
unfolding get
get-In [] drv info h = cc
get-In ((d, j) ∷ derivations) drv info h =
    ground (arith, h, get-In derivations drv info, eq_iff d drv)

-- An input of the jobs is an input of one of them.
inputs_of-In :
    (drv : String) (jobs : List NixJob)
    → In drv (inputs_of jobs)
    → (job : NixJob) × In job jobs × In drv (items job.input_drvs)
inputs_of-In drv [] i = absurd i
inputs_of-In drv (job ∷ jobs) i = elim ((In-append_iff drv (items job.input_drvs) _).0 i) [
  | inl here ↦ (job, inl refl, here)
  | inr later ↦ let (other, m, k) = inputs_of-In drv jobs later in (other, inr m, k)
]

-- The inputs of a job are inputs of the jobs.
pub In-inputs_of :
    (drv : String) (job : NixJob) (jobs : List NixJob)
    → In job jobs
    → In drv (items job.input_drvs)
    → In drv (inputs_of jobs)
In-inputs_of drv job [] m i = absurd m
In-inputs_of drv job (j ∷ jobs) (inl e) i =
    (In-append_iff drv (items j.input_drvs) _).1
      (inl (subst (λ x. In drv (items x.input_drvs)) e i))
In-inputs_of drv job (j ∷ jobs) (inr m) i =
    (In-append_iff drv (items j.input_drvs) _).1 (inr (In-inputs_of drv job jobs m i))

paths_of-append :
    (drv : String) (jobs added : List NixJob)
    → In drv (paths_of jobs) ⊎ In drv (paths_of added)
    → In drv (paths_of (jobs ++ added))
paths_of-append drv [] added (inl m) = absurd m
paths_of-append drv [] added (inr m) = m
paths_of-append drv (j ∷ jobs) added (inl (inl e)) = inl e
paths_of-append drv (j ∷ jobs) added (inl (inr m)) = inr (paths_of-append drv jobs added (inl m))
paths_of-append drv (j ∷ jobs) added (inr m) = inr (paths_of-append drv jobs added (inr m))

module _ (jobs out : List NixJob) (derivations : Derivations) (invalid : List String)
    (x : IsExpansion jobs derivations invalid out) where
  In-out :
      (drv : String) → In drv (paths_of jobs) ⊎ In drv (paths_of x.added) → In drv (paths_of out)
  In-out drv m =
      subst (λ l. In drv (paths_of l)) (sym x.appended) (paths_of-append drv jobs x.added m)

  -- An input of the expansion that is wanted is reached.
  input-IsReached :
      (drv : String) (info : DerivationInfo)
      → In drv (inputs_of out)
      → IsWanted jobs derivations invalid drv info
      → IsReached jobs derivations invalid drv
  unfolding dependency_job
  input-IsReached drv info i w =
      let (job, m, k) = inputs_of-In drv out i in
      elim ((In-append_iff job jobs x.added).0 (subst (λ l. In job l) x.appended m)) [
        | inl old ↦ input_of_job drv info (In-inputs_of drv job jobs old k) w
        | inr new ↦
            let (above, g, e) = All-In _ job x.added x.made new in
            let path = In-map (λ j. j.drv_path) job x.added new in
            input_of_derivation job.drv_path drv info above ((x.reached job.drv_path).0 path) g
              (subst (λ l. In drv (items l)) (ap (λ j. j.input_drvs) e) k) w
      ]

  -- An input of the expansion that has to be built is a job of the expansion.
  input-In-out :
      (drv : String) (info : DerivationInfo)
      → In drv (inputs_of out)
      → get derivations drv ≡ some info
      → should_enqueue_derivation info invalid ≡ true
      → In drv (paths_of out)
  input-In-out drv info i g b = elim (Bool-cases (contains (paths_of jobs) drv)) [
    | inl c ↦ In-out drv (inl ((contains_iff (paths_of jobs) drv).0 c))
    | inr c ↦
        let wanted : IsWanted jobs derivations invalid drv info = record {
          no_job = λ n. ground (arith, c, (contains_iff (paths_of jobs) drv).1 n);
          known = g;
          has_to_be_built = b;
        } in
        In-out drv (inr ((x.reached drv).1 (input-IsReached drv info i wanted)))
  ]

-- If a job of the expansion has a known derivation among its inputs, and the command does not vouch for
-- one of the outputs of that derivation (it fails for every chunk of paths that holds the output, or
-- lists the output as invalid), then the expansion has a job for that derivation.
pub Unvouched-expanded :
    (jobs out : List NixJob) (derivations : Derivations) (check : Check) (drv p : String)
    (info : DerivationInfo) (outputs : List (String × String))
    → expand_derivation_graph jobs derivations check ≡ some out
    → In drv (inputs_of out)
    → get derivations drv ≡ some info
    → info.outputs ≡ some outputs
    → In p (values outputs)
    → Unvouched check p
    → In drv (paths_of out)
Unvouched-expanded jobs out derivations check drv p info outputs e i g o m u =
    let (found, k, x) = expand_derivation_graph-IsExpansion jobs derivations check in
    let invalid = invalid_output_paths derivations check in
    let own = subst (λ l. IsExpansion jobs derivations invalid l) (some_inj (sym k ∙ e)) x in
    let known = get-In derivations drv info g in
    input-In-out jobs out derivations invalid own drv info i g
      (Unvouched-enqueued drv p info outputs derivations check known o m u)
