-- ===== src/Tests/Evaluations.antt =====
-- Tests of the creation of an evaluation's builds.
use circus.Common.{
  ◌+◌, ◌≡◌, ◌≢◌, ◌↔◌, refl, ap, true, List, [], ◌∷◌, none, some, Option, String, inl, inr, map, ok,
  NoRepeats, In, arith, All, str_eq, eq_iff, false,
}
use circus.Models.EvaluationStatus.{running}
use circus.Models.Rows.{Build}
use circus.Rpc.Agent.{Uuid, contains}
use circus.Builds.Once.{IsExclusive}
use circus.Builds.Valid.{IsTimed}
use circus.Systems.{system_allowed}
use circus.Evaluator.Graph.{
  NixJob, DerivationInfo, Derivations, Check, no_meta, expand_derivation_graph, expand_jobs,
  expand_queued, get, should_enqueue_derivation, dependency_job, invalid_output_paths, distinct,
  chunks, invalid_in, paths_of,
}
use circus.Evaluator.Graph.Invalid.{Unvouched}
use circus.Evaluator.Graph.Rebuilt.{Unvouched-expanded}
use circus.Evaluator.Graph.Reach.{IsExpansion, expand_derivation_graph-IsExpansion}
use circus.Evaluator.JobName.{dependency_job_name}
use circus.Evaluator.Edges.{resolve_dependency_pairs, resolve_jobs, add_edges, add_edge}
use circus.Evaluator.Edges.Exact.{IsDependency, resolve_dependency_pairs_exact}
use circus.Evaluator.Describe.{Described, describe}
use circus.Evaluator.Create.{
  Answers, committed, Db, Returned, jobs_of_eval, create_builds_from_eval,
}
use circus.Evaluator.Create.Fill.{IsFilled}
use circus.Evaluator.Create.Atomic.{Outcome, create_builds_from_eval-Outcome}
use circus.Evaluator.Create.Waits.{IsWired, create_builds_from_eval-IsWired}
use circus.Evaluator.Create.Sound.{create_builds_from_eval-keeps}
use circus.Evaluator.Create.Succeeds.{IsHealthy, create_builds_from_eval-succeeds}
use circus.Tests.{linux}
use circus.Tests.Rows.{two_rows, two_rows-IsExclusive, two_rows-IsTimed}

abbrev app : NixJob
app = record {
  name = "app";
  drv_path = "/nix/store/a-app.drv";
  system = some "x86_64-linux";
  outputs = some (("out", "/nix/store/a-app") ∷ []);
  input_drvs = some ("/nix/store/b-lib.drv" ∷ "/nix/store/c-done.drv" ∷ []);
  constituents = none;
  meta = no_meta;
}

abbrev derivation : String → List String → DerivationInfo
derivation out inputs = record {
  system = some "x86_64-linux";
  outputs = some (("out", out) ∷ []);
  input_drvs = some inputs;
  required_features = [];
}

-- The library is built from a source that is not there yet; what is done is valid.
abbrev derivations : Derivations
derivations =
    ("/nix/store/a-app.drv", derivation "/nix/store/a-app" ("/nix/store/b-lib.drv" ∷ []))
    ∷ ("/nix/store/b-lib.drv", derivation "/nix/store/b-lib" ("/nix/store/d-src.drv" ∷ []))
    ∷ ("/nix/store/c-done.drv", derivation "/nix/store/c-done" ("/nix/store/d-src.drv" ∷ []))
    ∷ ("/nix/store/d-src.drv", derivation "/nix/store/d-src" [])
    ∷ []

abbrev invalid_outputs : List String
invalid_outputs = "/nix/store/a-app" ∷ "/nix/store/b-lib" ∷ "/nix/store/d-src" ∷ []

abbrev check : Check
check chunk = some invalid_outputs

lib_name : dependency_job_name "/nix/store/b-lib.drv" ≡ "drv:b-lib"
unfolding dependency_job_name
lib_name = refl

abbrev lib : DerivationInfo
lib = derivation "/nix/store/b-lib" ("/nix/store/d-src.drv" ∷ [])

abbrev lib_job : NixJob
lib_job = dependency_job "/nix/store/b-lib.drv" lib

abbrev expanded_jobs : List NixJob
expanded_jobs =
    app ∷ lib_job ∷ dependency_job "/nix/store/d-src.drv" (derivation "/nix/store/d-src" []) ∷ []

two_are_added : expand_derivation_graph (app ∷ []) derivations check ≡ some expanded_jobs
unfolding expand_derivation_graph expand_jobs expand_queued get should_enqueue_derivation
    invalid_output_paths distinct chunks invalid_in contains
two_are_added = refl

expand_derivation_graph-IsExpansion_example :
    (out : List NixJob) × (expand_derivation_graph (app ∷ []) derivations check ≡ some out)
    × IsExpansion (app ∷ []) derivations (invalid_output_paths derivations check) out
expand_derivation_graph-IsExpansion_example =
    expand_derivation_graph-IsExpansion (app ∷ []) derivations check

lib_is_Unvouched : Unvouched check "/nix/store/b-lib"
lib_is_Unvouched chunk m = inr (invalid_outputs, refl, inr (inl refl))

lib_is_known : get derivations "/nix/store/b-lib.drv" ≡ some lib
unfolding get
lib_is_known = refl

Unvouched-expanded_example : In "/nix/store/b-lib.drv" (paths_of expanded_jobs)
Unvouched-expanded_example =
    Unvouched-expanded (app ∷ []) expanded_jobs derivations check "/nix/store/b-lib.drv"
      "/nix/store/b-lib" lib (("out", "/nix/store/b-lib") ∷ []) two_are_added (inl refl)
      lib_is_known refl (inl refl) lib_is_Unvouched

-- The edges of the application, of an alias of it, and of the library.
abbrev by_drv : List (String × Uuid)
by_drv = ("/nix/store/b-lib.drv", 3) ∷ ("/nix/store/a-app.drv", 2) ∷ []

abbrev aliased : List NixJob
aliased = app ∷ record app { name = "default" } ∷ lib_job ∷ []

aliases_have_edges :
    resolve_dependency_pairs by_drv [] aliased (1 ∷ 2 ∷ 3 ∷ []) ≡ (1, 3) ∷ (2, 3) ∷ []
unfolding resolve_dependency_pairs resolve_jobs add_edges add_edge get dependency_job
aliases_have_edges = refl

resolve_dependency_pairs_exact_example :
    NoRepeats (resolve_dependency_pairs by_drv [] aliased (1 ∷ 2 ∷ 3 ∷ []))
    × ((a b : Uuid)
        → In (a, b) (resolve_dependency_pairs by_drv [] aliased (1 ∷ 2 ∷ 3 ∷ []))
          ↔ IsDependency by_drv [] aliased (1 ∷ 2 ∷ 3 ∷ []) a b)
resolve_dependency_pairs_exact_example =
    resolve_dependency_pairs_exact by_drv [] aliased (1 ∷ 2 ∷ 3 ∷ [])

-- A database that answers every query, with one evaluation, which runs.
abbrev answers : Answers
answers = record {
  connects = true;
  locks = true;
  now = 5000;
  new_id = λ n. n + 100;
  inserts = λ n. true;
  links = λ n. true;
  finishes = true;
  commit = committed;
}

abbrev described : Described
described = record { drv_content = λ drv. none; read_required_features = λ drv. [] }

abbrev empty_db : Db
empty_db = record { status = running; builds = two_rows; dependencies = [] }

abbrev linux_only : Option (List String)
linux_only = some (linux ∷ [])

kept_jobs : jobs_of_eval linux_only derivations check (app ∷ []) ≡ some expanded_jobs
unfolding jobs_of_eval expand_derivation_graph expand_jobs expand_queued get
    should_enqueue_derivation invalid_output_paths distinct chunks invalid_in system_allowed
    dependency_job contains
kept_jobs = refl

abbrev ended : Returned
ended =
    create_builds_from_eval described answers 71 linux_only derivations check (app ∷ []) empty_db

create_builds_from_eval-Outcome_example :
    (kept : List NixJob) × (jobs_of_eval linux_only derivations check (app ∷ []) ≡ some kept)
    × Outcome answers kept (map (describe described 71 derivations) kept) empty_db ended
create_builds_from_eval-Outcome_example =
    create_builds_from_eval-Outcome described answers 71 linux_only derivations check (app ∷ [])
      empty_db

empty_db-IsHealthy : IsHealthy answers empty_db
empty_db-IsHealthy = record {
  connects = refl;
  locks = refl;
  inserts = λ n. refl;
  links = λ n. refl;
  finishes = refl;
  commits = refl;
  distinct = λ m n e. omega (arith, e);
  no_row = λ n r m. elim m [
    | inl e ↦ λ same. absurd (omega (arith, ap (λ x. x.id) e, same))
    | inr k ↦ elim k [
      | inl e ↦ λ same. absurd (omega (arith, ap (λ x. x.id) e, same))
      | inr z ↦ absurd z
    ]
  ];
  no_edge = λ n y m. absurd m;
}

texts_differ : (s t : String) → str_eq s t ≡ false → s ≢ t
texts_differ s t h e = ground (arith, (eq_iff s t).1 e, h)

expanded_names : NoRepeats (map (λ j. j.name) expanded_jobs)
unfolding dependency_job dependency_job_name
expanded_names = (
  λ m. elim m [
    | inl e ↦ texts_differ "app" "drv:b-lib" refl e
    | inr k ↦ elim k [ inl e ↦ texts_differ "app" "drv:d-src" refl e | inr z ↦ z ]
  ],
  (λ m. elim m [ inl e ↦ texts_differ "drv:b-lib" "drv:d-src" refl e | inr z ↦ z ], (λ m. m, tt)),
)

no_builds_yet : (r : Build) → In r empty_db.builds → r.evaluation_id ≢ 71
no_builds_yet r m = elim m [
  | inl e ↦ λ same. absurd (omega (arith, ap (λ x. x.evaluation_id) e, same))
  | inr k ↦ elim k [
    | inl e ↦ λ same. absurd (omega (arith, ap (λ x. x.evaluation_id) e, same))
    | inr z ↦ absurd z
  ]
]

all_created : ended.answer ≡ ok true
all_created =
    create_builds_from_eval-succeeds described answers 71 linux_only derivations check (app ∷ [])
      expanded_jobs empty_db kept_jobs empty_db-IsHealthy refl no_builds_yet expanded_names

create_builds_from_eval-succeeds_example : ended.answer ≡ ok true
create_builds_from_eval-succeeds_example =
    create_builds_from_eval-succeeds described answers 71 linux_only derivations check (app ∷ [])
      expanded_jobs empty_db kept_jobs empty_db-IsHealthy refl no_builds_yet expanded_names

create_builds_from_eval-IsWired_example :
    (kept : List NixJob) × (jobs_of_eval linux_only derivations check (app ∷ []) ≡ some kept)
    × (done : IsFilled answers kept
        (map (describe described 71 derivations) kept)
        empty_db
        ended.db)
    × IsWired linux_only derivations
        (invalid_output_paths derivations check)
        kept
        done.ids
        []
        ended.db.dependencies
create_builds_from_eval-IsWired_example =
    create_builds_from_eval-IsWired described answers 71 linux_only derivations check (app ∷ [])
      empty_db all_created

create_builds_from_eval-keeps_example : IsExclusive ended.db.builds × All IsTimed ended.db.builds
create_builds_from_eval-keeps_example =
    create_builds_from_eval-keeps described answers 71 linux_only derivations check (app ∷ [])
      empty_db two_rows-IsExclusive two_rows-IsTimed
