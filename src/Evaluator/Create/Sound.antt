-- ===== src/Evaluator/Create/Sound.antt =====
-- crates/evaluator/src/builds.rs, `create_builds_from_eval`: the rows that it leaves behind.
use circus.Common.{ℕ, [], ◌∷◌, inl, inr, sym, subst, List, Option, String, All}
use circus.Rpc.Agent.{Uuid}
use circus.Builds.{Table}
use circus.Builds.Proper.{AllCurrent}
use circus.Evaluator.Describe.{CreateBuild}
use circus.Evaluator.Create.Inserts.{insertions}
use circus.Builds.Once.{IsExclusive, apply_all-IsExclusive}
use circus.Builds.Valid.{IsTimed, apply_all-IsTimed}
use circus.Evaluator.Graph.{NixJob, Derivations, Check}
use circus.Evaluator.Describe.{Described}
use circus.Evaluator.Create.{Answers, Db, create_builds_from_eval}
use circus.Evaluator.Create.Atomic.{create_builds_from_eval-Outcome}

-- Nothing that is inserted reads a snapshot.
insertions-AllCurrent :
    (now : ℕ) (ids : List Uuid) (inputs : List CreateBuild) (t : Table)
    → AllCurrent (insertions now ids inputs) t
insertions-AllCurrent now [] inputs t = tt
insertions-AllCurrent now (id ∷ ids) [] t = tt
insertions-AllCurrent now (id ∷ ids) (input ∷ inputs) t =
    (tt, insertions-AllCurrent now ids inputs _)

-- The creation of an evaluation's builds keeps what the life cycle of builds keeps, however it ends: ids
-- are unique, at most one build of a derivation runs, and the times of every row agree with its status.
pub create_builds_from_eval-keeps :
    (d : Described) (a : Answers) (eval_id : Uuid) (allowed : Option (List String))
    (derivations : Derivations) (check : Check) (jobs : List NixJob) (db : Db)
    → IsExclusive db.builds
    → All IsTimed db.builds
    → IsExclusive (create_builds_from_eval d a eval_id allowed derivations check jobs db).db.builds
      × All IsTimed
          (create_builds_from_eval d a eval_id allowed derivations check jobs db).db.builds
create_builds_from_eval-keeps d a eval_id allowed derivations check jobs db once timed =
    let (kept, e, o) =
      create_builds_from_eval-Outcome d a eval_id allowed derivations check jobs db in
    let Sound = λ (t : Table). IsExclusive t × All IsTimed t in
    elim o.all_or_nothing [
      | inl same ↦ subst (λ x. Sound x.builds) (sym same) (once, timed)
      | inr done ↦ subst Sound (sym done.rows) (
        apply_all-IsExclusive _ db.builds done.proper (insertions-AllCurrent _ _ _ db.builds) once,
        apply_all-IsTimed _ db.builds done.proper timed,
      )
    ]
