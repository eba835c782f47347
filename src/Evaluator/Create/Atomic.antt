-- ===== src/Evaluator/Create/Atomic.antt =====
-- crates/evaluator/src/builds.rs, `create_builds_from_eval`: all is created, or nothing is.
use circus.Common.{
  ℕ, suc, ◌≡◌, ◌≢◌, ◌⊎◌, inl, inr, refl, Bool, true, false, List, [], ◌∷◌, map, Option, none, some,
  String, arith, Bool-cases, Result-cases, ok, err,
}
use circus.Models.EvaluationStatus.{running}
use circus.Rpc.Agent.{Uuid}
use circus.Evaluator.Graph.{NixJob, Derivations, Check}
use circus.Evaluator.Edges.{Edge, resolve_dependency_pairs}
use circus.Evaluator.Describe.{CreateBuild, Described, describe}
use circus.Evaluator.Create.{
  CreateError, database, conflict, record_build, create_in_transaction, CommitAnswer, committed,
  rolled_back, unknown, Answers, Db, Progress, Returned, create_builds, create_dependencies,
  is_running, finish_running_in_transaction, fill, transaction, end_transaction, jobs_of_eval,
  create_builds_from_eval,
}
use circus.Evaluator.Create.Jobs.{jobs_of_eval-IsKept}
use circus.Evaluator.Create.Fill.{IsFilled, start, is_running_sound, fill-IsFilled}

-- The errors of the database, the only ones that there are.
abbrev pub is_query_error : CreateError → Bool
is_query_error database = true
is_query_error (conflict what) = true
is_query_error _ = false

create_builds-err :
    (a : Answers) (n : ℕ) (inputs : List CreateBuild) (p : Progress) (e : CreateError)
    → create_builds a n inputs p ≡ err e
    → is_query_error e ≡ true
unfolding create_builds create_in_transaction
create_builds-err a n [] p e h = cc
create_builds-err a n (input ∷ inputs) p e h =
    let rest = create_builds-err a (suc n) inputs in
    elim (Result-cases (create_in_transaction a n input p.table)) [
      | inr (f, k) ↦ ground (arith, k, h)
      | inl (r, k) ↦ rest (record_build a r p) e (ground (arith, k, h))
    ]

create_dependencies-err :
    (a : Answers) (n : ℕ) (pairs before : List Edge) (e : CreateError)
    → create_dependencies a n pairs before ≡ err e
    → is_query_error e ≡ true
unfolding create_dependencies
create_dependencies-err a n [] before e h = cc
create_dependencies-err a n ((b, d) ∷ pairs) before e h =
    ground (arith, create_dependencies-err a (suc n) pairs ((b, d) ∷ before) e, h)

fill-err :
    (a : Answers) (jobs : List NixJob) (inputs : List CreateBuild) (db : Db) (e : CreateError)
    → db.status ≡ running
    → fill a jobs inputs db ≡ err e
    → is_query_error e ≡ true
unfolding fill finish_running_in_transaction
fill-err a jobs inputs db e was h = elim (Result-cases (create_builds a 0 inputs (start db))) [
  | inr (f, k) ↦ ground (arith, k, h, create_builds-err a 0 inputs (start db) f)
  | inl (p, k) ↦
      let pairs = resolve_dependency_pairs p.drv_to_build p.name_to_build jobs p.build_ids in
      elim (Result-cases (create_dependencies a 0 pairs db.dependencies)) [
        | inr (f, l) ↦ ground (arith, k, l, h, create_dependencies-err a 0 pairs db.dependencies f)
        | inl (after, l) ↦ ground (arith, k, l, h, was)
      ]
]

-- How the creation may end.
pub record Outcome (a : Answers) (jobs : List NixJob) (inputs : List CreateBuild) (db : Db)
    (r : Returned) : Type 0 where
  pub all_or_nothing : (r.db ≡ db) ⊎ IsFilled a jobs inputs db r.db
  pub created : r.answer ≡ ok true → IsFilled a jobs inputs db r.db
  pub refused : r.answer ≡ ok false → (r.db ≡ db) × (db.status ≢ running)
  pub broken : (e : CreateError) → r.answer ≡ err e → is_query_error e ≡ true

commit-Outcome :
    (a : Answers) (jobs : List NixJob) (inputs : List CreateBuild) (db filled : Db)
    (commit : CommitAnswer)
    → IsFilled a jobs inputs db filled
    → Outcome a jobs inputs db (end_transaction commit db (ok (some filled)))
unfolding end_transaction
commit-Outcome a jobs inputs db filled committed done = record {
  all_or_nothing = inr done;
  created = λ h. done;
  refused = λ h. ground (arith, h);
  broken = λ e h. cc;
}
commit-Outcome a jobs inputs db filled rolled_back done = record {
  all_or_nothing = inl refl;
  created = λ h. cc;
  refused = λ h. cc;
  broken = λ e h. ground (arith, h);
}
commit-Outcome a jobs inputs db filled (unknown true) done = record {
  all_or_nothing = inr done;
  created = λ h. cc;
  refused = λ h. cc;
  broken = λ e h. ground (arith, h);
}
commit-Outcome a jobs inputs db filled (unknown false) done = record {
  all_or_nothing = inl refl;
  created = λ h. cc;
  refused = λ h. cc;
  broken = λ e h. ground (arith, h);
}

transaction_cases :
    (a : Answers) (jobs : List NixJob) (inputs : List CreateBuild) (db : Db)
    → ((e : CreateError) × (transaction a jobs inputs db ≡ err e) × (is_query_error e ≡ true))
      ⊎ (((transaction a jobs inputs db ≡ ok none) × (db.status ≢ running))
          ⊎ ((filled : Db) × (transaction a jobs inputs db ≡ ok (some filled))
              × IsFilled a jobs inputs db filled))
unfolding transaction
transaction_cases a jobs inputs db = elim (Bool-cases a.connects) [
  | inr n ↦ inl (database, ground (arith, n), refl)
  | inl c ↦ elim (Bool-cases a.locks) [
    | inr n ↦ inl (database, ground (arith, c, n), refl)
    | inl l ↦ elim (Bool-cases (is_running db.status)) [
      | inr n ↦ inr (inl (ground (arith, c, l, n), λ e. ground (arith, n, e)))
      | inl y ↦
          let was = is_running_sound db.status y in
          elim (Result-cases (fill a jobs inputs db)) [
            | inr (e, k) ↦ inl (e, ground (arith, c, l, y, k), fill-err a jobs inputs db e was k)
            | inl (filled, k) ↦ inr (
                inr
                  (filled, ground (arith, c, l, y, k), fill-IsFilled a jobs inputs db filled was k))
          ]
    ]
  ]
]

end_transaction-Outcome :
    (a : Answers) (jobs : List NixJob) (inputs : List CreateBuild) (db : Db) (commit : CommitAnswer)
    → Outcome a jobs inputs db (end_transaction commit db (transaction a jobs inputs db))
unfolding end_transaction
end_transaction-Outcome a jobs inputs db commit = elim (transaction_cases a jobs inputs db) [
  | inl (e, k, q) ↦ rw k record {
    all_or_nothing = inl refl;
    created = λ h. cc;
    refused = λ h. cc;
    broken = λ f h. ground (arith, q, h);
  }
  | inr rest ↦ elim rest [
    | inl (k, n) ↦ rw k record {
      all_or_nothing = inl refl;
      created = λ h. ground (arith, h);
      refused = λ h. (refl, n);
      broken = λ f h. cc;
    }
    | inr (filled, k, done) ↦ rw k (commit-Outcome a jobs inputs db filled commit done)
  ]
]

pub of_kept :
    (d : Described) (a : Answers) (eval_id : Uuid) (allowed : Option (List String))
    (derivations : Derivations) (check : Check) (jobs kept : List NixJob) (db : Db)
    → jobs_of_eval allowed derivations check jobs ≡ some kept
    → Outcome a kept
        (map (describe d eval_id derivations) kept)
        db
        (create_builds_from_eval d a eval_id allowed derivations check jobs db)
unfolding create_builds_from_eval
of_kept d a eval_id allowed derivations check jobs kept db e =
    rw (e, create_builds_from_eval)
      (end_transaction-Outcome a kept (map (describe d eval_id derivations) kept) db a.commit)

-- The builds of an evaluation are created all at once or not at all: whatever queries fail, and also if
-- the connection is lost while the transaction is committed, the tables are as they were, or the running
-- evaluation is completed and has a row for each of its jobs and all their edges. The answer `true` means
-- the latter, `false` that nothing was done since the evaluation does not run, and an error is one of the
-- database's: the evaluation never loses its state, and the expansion never runs out of fuel.
pub create_builds_from_eval-Outcome :
    (d : Described) (a : Answers) (eval_id : Uuid) (allowed : Option (List String))
    (derivations : Derivations) (check : Check) (jobs : List NixJob) (db : Db)
    → (kept : List NixJob) × (jobs_of_eval allowed derivations check jobs ≡ some kept)
      × Outcome a kept
          (map (describe d eval_id derivations) kept)
          db
          (create_builds_from_eval d a eval_id allowed derivations check jobs db)
create_builds_from_eval-Outcome d a eval_id allowed derivations check jobs db =
    let (kept, e, _) = jobs_of_eval-IsKept allowed derivations check jobs in
    (kept, e, of_kept d a eval_id allowed derivations check jobs kept db e)
