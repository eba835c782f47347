-- ===== src/Evaluator/Create.antt =====
-- crates/evaluator/src/builds.rs, `create_builds_from_eval`, and what it calls of crates/common/src/repo:
-- the builds of an evaluation are created in one transaction, which also finishes the evaluation. The
-- lock on the row of the evaluation keeps its status until the end of the transaction.
pub mod Inserts
pub mod Fill
pub mod Jobs
pub mod Atomic
pub mod Waits
pub mod Sound
pub mod Succeeds
use circus.Common.{
  ℕ, zero, suc, ◌+◌, Bool, true, false, not, ◌&&◌, ◌||◌, List, [], ◌∷◌, ◌++◌, map, Option, none,
  some, String, str_eq, any, ◌==◌, if◌then◌else◌, retain, Bytes, codes, Result, ok, err, guard,
  ◌>>=◌, ◌>>◌,
}
use circus.Common.Strings.{strip_prefix}
use circus.Models.BuildStatus.{pending}
use circus.Models.EvaluationStatus.{EvaluationStatus, running, completed}
use circus.Models.Rows.{Build}
use circus.Rpc.Agent.{Uuid}
use circus.Builds.{Table}
use circus.Systems.{system_allowed}
use circus.Evaluator.Graph.{NixMeta, NixJob, Derivations, Check, get, expand_derivation_graph}
use circus.Evaluator.Describe.{CreateBuild, Described, describe}
use circus.Evaluator.Edges.{Edge, has_edge, resolve_dependency_pairs}

pub data CreateError : Type 0 where
  database : CreateError
  conflict : String → CreateError
  lost_running_state : CreateError
  out_of_fuel : CreateError

-- The row that `INSERT` makes, with the defaults of the table.
abbrev pub new_row : Uuid → ℕ → CreateBuild → Build
new_row id now input = record {
  id = id;
  evaluation_id = input.evaluation_id;
  job_name = input.job_name;
  drv_path = input.drv_path;
  status = pending;
  started_at = none;
  completed_at = none;
  log_path = none;
  build_output_path = none;
  error_message = none;
  system = input.system;
  retry_count = 0;
  max_retries = 3;
  created_at = now;
  outputs = elim input.outputs [
    | none ↦ none
    | some outputs ↦ some (map (λ (name, path). (name, some path)) outputs)
  ];
  is_aggregate = input.is_aggregate;
  is_fod = input.is_fod;
  required_features = input.required_features;
  effective_features = none;
  signed = false;
  started_notified = false;
}

-- The two unique keys of `builds`.
abbrev pub clashes : Uuid → CreateBuild → Build → Bool
clashes id input r =
    r.id == id || (r.evaluation_id == input.evaluation_id && str_eq r.job_name input.job_name)

-- What the database answers in the transaction: the ids that it makes up, and the queries that break,
-- by the number of the build or of the edge.
pub data CommitAnswer : Type 0 where
  committed : CommitAnswer
  rolled_back : CommitAnswer
  -- The connection is lost, and the transaction may have been committed or not.
  unknown : Bool → CommitAnswer

pub record Answers : Type 0 where
  pub connects : Bool
  pub locks : Bool
  pub now : ℕ
  pub new_id : ℕ → Uuid
  pub inserts : ℕ → Bool
  pub links : ℕ → Bool
  pub finishes : Bool
  pub commit : CommitAnswer

-- The tables, with the status of the evaluation at hand.
pub record Db : Type 0 where
  pub status : EvaluationStatus
  pub builds : Table
  pub dependencies : List Edge

-- The loop over the builds: the table, and what the loop has collected.
pub record Progress : Type 0 where
  pub table : Table
  pub drv_to_build : List (String × Uuid)
  pub name_to_build : List (String × Uuid)
  pub build_ids : List Uuid

abbrev pub is_running : EvaluationStatus → Bool
is_running running = true
is_running _ = false

module _ (a : Answers) where
  unfoldable pub create_in_transaction : ℕ → CreateBuild → Table → Result CreateError Build
  create_in_transaction n input t = do
    guard (a.inserts n) database
    guard (not (any (clashes (a.new_id n) input) t)) (conflict input.job_name)
    ok (new_row (a.new_id n) a.now input)

  abbrev pub record_build : Build → Progress → Progress
  record_build r p = record {
    table = r ∷ p.table;
    drv_to_build = (r.drv_path, r.id) ∷ p.drv_to_build;
    name_to_build = (r.job_name, r.id) ∷ p.name_to_build;
    build_ids = p.build_ids ++ (r.id ∷ []);
  }

  unfoldable pub create_builds : ℕ → List CreateBuild → Progress → Result CreateError Progress
  unfolding create_in_transaction
  create_builds n [] p = ok p
  create_builds n (input ∷ inputs) p = do
    r ← create_in_transaction n input p.table
    create_builds (suc n) inputs (record_build r p)

  unfoldable pub create_dependencies : ℕ → List Edge → List Edge → Result CreateError (List Edge)
  create_dependencies n [] dependencies = ok dependencies
  create_dependencies n ((build_id, dep_build_id) ∷ pairs) dependencies = do
    guard (a.links n) database
    guard (not (has_edge build_id dep_build_id dependencies)) (conflict "dependency")
    create_dependencies (suc n) pairs ((build_id, dep_build_id) ∷ dependencies)

  unfoldable pub finish_running_in_transaction : Db → Result CreateError (Option Db)
  finish_running_in_transaction db = do
    guard a.finishes database
    ok (if is_running db.status then some (record db { status = completed }) else none)

  -- The queries behind the lock. An `Err` drops the transaction, which rolls it back.
  unfoldable pub fill : List NixJob → List CreateBuild → Db → Result CreateError Db
  unfolding create_builds create_dependencies finish_running_in_transaction resolve_dependency_pairs
  fill jobs inputs db = do
    p ←
        create_builds 0 inputs
          (record { table = db.builds; drv_to_build = []; name_to_build = []; build_ids = [] })
    dependencies ←
        create_dependencies 0
          (resolve_dependency_pairs p.drv_to_build p.name_to_build jobs p.build_ids) db.dependencies
    finished ←
        finish_running_in_transaction (record db { builds = p.table; dependencies = dependencies })
    elim finished [ none ↦ err lost_running_state | some filled ↦ ok filled ]

  -- The transaction; nothing is filled in if the evaluation is not running.
  unfoldable pub transaction : List NixJob → List CreateBuild → Db → Result CreateError (Option Db)
  unfolding fill
  transaction jobs inputs db = do
    guard a.connects database
    guard a.locks database
    let filled = fill jobs inputs db >>= λ after_all. ok (some after_all)
    if is_running db.status then filled else ok none

pub record Returned : Type 0 where
  pub answer : Result CreateError Bool
  pub db : Db

unfoldable pub end_transaction : CommitAnswer → Db → Result CreateError (Option Db) → Returned
end_transaction commit db (err e) = record { answer = err e; db = db }
end_transaction commit db (ok none) = record { answer = ok false; db = db }
end_transaction committed db (ok (some filled)) = record { answer = ok true; db = filled }
end_transaction rolled_back db (ok (some filled)) = record { answer = err database; db = db }
end_transaction (unknown applied) db (ok (some filled)) = record {
  answer = err database;
  db = if applied then filled else db;
}

abbrev pub allowed_jobs : Option (List String) → List NixJob → List NixJob
allowed_jobs allowed = retain (λ j. system_allowed j.system allowed)

unfoldable pub jobs_of_eval :
    Option (List String) → Derivations → Check → List NixJob → Option (List NixJob)
unfolding expand_derivation_graph system_allowed
jobs_of_eval allowed derivations check jobs =
    elim (expand_derivation_graph (allowed_jobs allowed jobs) derivations check) [
      | none ↦ none
      | some expanded ↦ some (allowed_jobs allowed expanded)
    ]

unfoldable pub create_builds_from_eval :
    Described
    → Answers
    → Uuid
    → Option (List String)
    → Derivations
    → Check
    → List NixJob
    → Db
    → Returned
unfolding jobs_of_eval describe transaction end_transaction
create_builds_from_eval d a eval_id allowed derivations check jobs db =
    elim (jobs_of_eval allowed derivations check jobs) [
      | none ↦ record { answer = err out_of_fuel; db = db }
      | some kept ↦
          end_transaction a.commit db
            (transaction a kept (map (describe d eval_id derivations) kept) db)
    ]
