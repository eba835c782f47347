-- ===== src/Evaluator/Create/Waits.antt =====
-- crates/evaluator/src/builds.rs, `create_builds_from_eval`: the edges between the created builds.
use circus.Common.{
  ◌≡◌, ◌≢◌, ◌⊎◌, inl, inr, refl, ap, sym, ◌∙◌, subst, true, List, [], ◌∷◌, map, Option, some,
  String, arith, In, length, Bool-cases, ok, ◌==◌, suc,
}
use circus.Rpc.Agent.{Uuid}
use circus.Systems.{system_allowed}
use circus.Evaluator.Graph.{
  NixJob, DerivationInfo, Derivations, Check, get, items, should_enqueue_derivation,
  invalid_output_paths,
}
use circus.Evaluator.Edges.{Edge}
use circus.Evaluator.Edges.Exact.{IsBuiltAs, Names}
use circus.Evaluator.Describe.{CreateBuild, Described, describe}
use circus.Evaluator.Create.{Answers, Db, jobs_of_eval, create_builds_from_eval}
use circus.Evaluator.Create.Inserts.{keyed, keyed_sound, keyed_complete}
use circus.Evaluator.Create.Jobs.{IsKept, input-In-kept, jobs_of_eval-IsKept}
use circus.Evaluator.Create.Fill.{IsFilled}
use circus.Evaluator.Create.Atomic.{of_kept}

module _ {A B : Type 0} (f : A → B) where
  IsBuiltAs-map :
      (a : A) (id : Uuid) (xs : List A) (ids : List Uuid)
      → IsBuiltAs a id xs ids
      → IsBuiltAs (f a) id (map f xs) ids
  IsBuiltAs-map a id [] ids h = absurd h
  IsBuiltAs-map a id (x ∷ xs) [] h = absurd h
  IsBuiltAs-map a id (x ∷ xs) (i ∷ ids) (inl (e, k)) = inl (ap f e, k)
  IsBuiltAs-map a id (x ∷ xs) (i ∷ ids) (inr h) = inr (IsBuiltAs-map a id xs ids h)

  map-IsBuiltAs :
      (b : B) (id : Uuid) (xs : List A) (ids : List Uuid)
      → IsBuiltAs b id (map f xs) ids
      → (a : A) × IsBuiltAs a id xs ids × (b ≡ f a)
  map-IsBuiltAs b id [] ids h = absurd h
  map-IsBuiltAs b id (x ∷ xs) [] h = absurd h
  map-IsBuiltAs b id (x ∷ xs) (i ∷ ids) (inl (e, k)) = (x, inl (refl, k), e)
  map-IsBuiltAs b id (x ∷ xs) (i ∷ ids) (inr h) =
      let (a, k, e) = map-IsBuiltAs b id xs ids h in (a, inr k, e)

module _ {A : Type 0} where
  IsBuiltAs-In :
      (a : A) (id : Uuid) (xs : List A) (ids : List Uuid) → IsBuiltAs a id xs ids → In a xs
  IsBuiltAs-In a id [] ids h = absurd h
  IsBuiltAs-In a id (x ∷ xs) [] h = absurd h
  IsBuiltAs-In a id (x ∷ xs) (i ∷ ids) (inl (e, k)) = inl e
  IsBuiltAs-In a id (x ∷ xs) (i ∷ ids) (inr h) = inr (IsBuiltAs-In a id xs ids h)

  -- With an id for each item, every item has one.
  In-IsBuiltAs :
      (a : A) (xs : List A) (ids : List Uuid)
      → length ids ≡ length xs
      → In a xs
      → (id : Uuid) × IsBuiltAs a id xs ids
  In-IsBuiltAs a [] ids l m = absurd m
  In-IsBuiltAs a (x ∷ xs) [] l m = absurd (omega (arith, l))
  In-IsBuiltAs a (x ∷ xs) (i ∷ ids) l (inl e) = (i, inl (e, refl))
  In-IsBuiltAs a (x ∷ xs) (i ∷ ids) l (inr m) =
      let (id, h) = In-IsBuiltAs a xs ids (omega (arith, l)) m in (id, inr h)

  length-map : {B : Type 0} (f : A → B) (xs : List A) → length (map f xs) ≡ length xs
  length-map f [] = refl
  length-map f (x ∷ xs) = ap suc (length-map f xs)

-- The edges of an evaluation. A new edge joins two builds of the evaluation, and the job of the first
-- names the second by an input or as a constituent. A build waits for a build of each input that has to
-- be built, unless it is that build itself or no build is made for the input's system.
pub record IsWired (allowed : Option (List String)) (derivations : Derivations)
    (invalid : List String) (jobs : List NixJob) (ids : List Uuid) (before after : List Edge)
    : Type 0 where
  pub internal :
      (x y : Uuid)
      → In (x, y) after
      → In (x, y) before
        ⊎ ((x ≢ y)
            × ((job : NixJob) × (other : NixJob) × IsBuiltAs job x jobs ids
                × IsBuiltAs other y jobs ids
                × (In other.drv_path (items job.input_drvs)
                    ⊎ In other.name (items job.constituents))))
  pub waits :
      (job : NixJob) (x : Uuid) (drv : String) (info : DerivationInfo)
      → IsBuiltAs job x jobs ids
      → In drv (items job.input_drvs)
      → get derivations drv ≡ some info
      → should_enqueue_derivation info invalid ≡ true
      → system_allowed info.system allowed ≡ true
      → (other : NixJob) × (y : Uuid) × IsBuiltAs other y jobs ids
        × (other.drv_path ≡ drv)
        × ((x ≡ y) ⊎ In (x, y) after)

module _ (d : Described) (eval_id : Uuid) (derivations : Derivations) where
  -- A name that a map holds is that of a build of the evaluation.
  named_job :
      (key : CreateBuild → String) (job_key : NixJob → String) (jobs : List NixJob)
      (ids : List Uuid) (keys : List String) (y : Uuid)
      → ((j : NixJob) → key (describe d eval_id derivations j) ≡ job_key j)
      → Names (keyed key ids (map (describe d eval_id derivations) jobs) []) keys y
      → (other : NixJob) × IsBuiltAs other y jobs ids × In (job_key other) keys
  unfolding get
  named_job key job_key jobs ids keys y same (k, m, g) =
      elim (keyed_sound key ids (map (describe d eval_id derivations) jobs) [] k y g) [
        | inl z ↦ absurd (ground (arith, z))
        | inr (input, built, e) ↦
            let (other, h, i) =
              map-IsBuiltAs (describe d eval_id derivations) input y jobs ids built in
            let name : k ≡ job_key other = sym e ∙ ap key i ∙ same other in
            (other, h, subst (λ x. In x keys) name m)
      ]

  module _ (a : Answers) (allowed : Option (List String)) (check : Check) (jobs kept : List NixJob)
      (db filled : Db) (k : IsKept allowed derivations check jobs kept)
      (done : IsFilled a kept (map (describe d eval_id derivations) kept) db filled) where
    all_ids : length done.ids ≡ length kept
    all_ids = done.all ∙ length-map (describe d eval_id derivations) kept

    -- The build that the map holds for a derivation of the evaluation.
    build_of :
        (job : NixJob)
        → In job kept
        → (other : NixJob) × (y : Uuid) × IsBuiltAs other y kept done.ids
          × (other.drv_path ≡ job.drv_path)
          × (get
                (keyed (λ i. i.drv_path) done.ids (map (describe d eval_id derivations) kept) [])
                job.drv_path
              ≡ some y)
    unfolding describe
    build_of job m =
        let inputs = map (describe d eval_id derivations) kept in
        let (id, here) = In-IsBuiltAs job kept done.ids all_ids m in
        let built = IsBuiltAs-map (describe d eval_id derivations) job id kept done.ids here in
        let (y, g) =
          keyed_complete (λ i. i.drv_path) done.ids inputs [] (describe d eval_id derivations job)
            id built in
        let (other, h, i) =
          named_job (λ i. i.drv_path) (λ j. j.drv_path) kept done.ids (job.drv_path ∷ []) y
            (λ j. refl) (job.drv_path, inl refl, g) in
        (other, y, h, elim i [ inl e ↦ e | inr z ↦ absurd z ], g)

    filled-IsWired :
        IsWired allowed derivations
          (invalid_output_paths derivations check)
          kept
          done.ids
          db.dependencies
          filled.dependencies
    unfolding describe
    filled-IsWired = record {
      internal = λ x y m. elim ((done.links x y).0 m) [
        | inl old ↦ inl old
        | inr (other_build, (job, built, inl n)) ↦
            let (other, h, i) =
              named_job (λ i. i.drv_path) (λ j. j.drv_path) kept done.ids (items job.input_drvs) y
                (λ j. refl) n in
            inr (other_build, (job, other, built, h, inl i))
        | inr (other_build, (job, built, inr n)) ↦
            let (other, h, i) =
              named_job (λ i. i.job_name) (λ j. j.name) kept done.ids (items job.constituents) y
                (λ j. refl) n in
            inr (other_build, (job, other, built, h, inr i))
      ];
      waits = λ job x drv info built i g b s.
          let m = IsBuiltAs-In job x kept done.ids built in
          let (wanted, n, e) =
            input-In-kept allowed derivations check jobs kept k job drv info m i g b s in
          let (other, y, h, same, found) = build_of wanted n in
          elim (Bool-cases (x == y)) [
            | inl q ↦ (other, y, h, same ∙ e, inl (ground (arith, q)))
            | inr q ↦
                let edge = (done.links x y).1 (
                  inr (
                    λ z. ground (arith, q, z),
                    (
                      job,
                      built,
                      inl (
                        wanted.drv_path,
                        subst (λ p. In p (items job.input_drvs)) (sym e) i,
                        found,
                      ),
                    ),
                  )) in
                (other, y, h, same ∙ e, inr edge)
          ];
    }

-- When `create_builds_from_eval` answers that it created the builds of an evaluation, they are the builds of
-- the jobs that `jobs_of_eval` keeps, one for each. Each new edge joins two of them, the first of which
-- names the second as an input or as a constituent, and each build waits for a build of every input that
-- nix has to build, itself apart, if the systems of the instance allow the input.
pub create_builds_from_eval-IsWired :
    (d : Described) (a : Answers) (eval_id : Uuid) (allowed : Option (List String))
    (derivations : Derivations) (check : Check) (jobs : List NixJob) (db : Db)
    → (create_builds_from_eval d a eval_id allowed derivations check jobs db).answer ≡ ok true
    → (kept : List NixJob) × (jobs_of_eval allowed derivations check jobs ≡ some kept)
      × (done : IsFilled a kept
          (map (describe d eval_id derivations) kept)
          db
          (create_builds_from_eval d a eval_id allowed derivations check jobs db).db)
      × IsWired allowed derivations
          (invalid_output_paths derivations check)
          kept
          done.ids
          db.dependencies
          (create_builds_from_eval d a eval_id allowed derivations check jobs db).db.dependencies
create_builds_from_eval-IsWired d a eval_id allowed derivations check jobs db h =
    let (kept, e, k) = jobs_of_eval-IsKept allowed derivations check jobs in
    let o = of_kept d a eval_id allowed derivations check jobs kept db e in
    let done = o.created h in
    (kept, e, done, filled-IsWired d eval_id derivations a allowed check jobs kept db _ k done)
