-- ===== src/Evaluator/Create/Fill.antt =====
-- crates/evaluator/src/builds.rs, `create_builds_from_eval`: what the queries behind the lock have done if
-- none failed.
use circus.Common.{
  ℕ, suc, ◌≡◌, ◌↔◌, ◌⊎◌, inl, inr, refl, sym, subst, true, List, [], ◌∷◌, arith, length,
  Result-cases, ok, In,
}
use circus.Models.EvaluationStatus.{EvaluationStatus, running, completed}
use circus.Rpc.Agent.{Uuid}
use circus.Builds.{apply_all}
use circus.Builds.Proper.{AllProper}
use circus.Evaluator.Graph.{NixJob}
use circus.Evaluator.Edges.{Edge, resolve_dependency_pairs}
use circus.Evaluator.Edges.Exact.{IsDependency, resolve_dependency_pairs_exact}
use circus.Evaluator.Describe.{CreateBuild}
use circus.Evaluator.Create.{
  Answers, Db, Progress, create_builds, create_dependencies, is_running,
  finish_running_in_transaction, fill,
}
use circus.Evaluator.Create.Inserts.{insertions, keyed, Creates, create_builds-Creates}

linked :
    (a : Answers) (n : ℕ) (pairs before after : List Edge)
    → create_dependencies a n pairs before ≡ ok after
    → (x y : Uuid) → In (x, y) after ↔ (In (x, y) before ⊎ In (x, y) pairs)
unfolding create_dependencies
linked a n [] before after h x y =
    subst (λ l. In {A = Edge} (x, y) l ↔ (In {A = Edge} (x, y) before ⊎ ⊥)) (ground (arith, h))
      (λ m. inl m, λ m. elim m [ inl k ↦ k | inr z ↦ absurd z ])
linked a n ((b, d) ∷ pairs) before after h x y =
    ground (arith, linked a (suc n) pairs ((b, d) ∷ before) after (ground (arith, h)) x y)

-- What the evaluation has when its builds are created: a row for each job, under a new id each, the edges
-- between them, and the status `completed`, all of which it gets at once and while it is running.
pub record IsFilled (a : Answers) (jobs : List NixJob) (inputs : List CreateBuild) (db filled : Db)
    : Type 0 where
  pub was_running : db.status ≡ running
  pub finished : filled.status ≡ completed
  pub ids : List Uuid
  pub all : length ids ≡ length inputs
  pub rows : filled.builds ≡ apply_all (insertions a.now ids inputs) db.builds
  pub proper : AllProper (insertions a.now ids inputs) db.builds
  pub links :
      (x y : Uuid)
      → In (x, y) filled.dependencies ↔ (
          In (x, y) db.dependencies
          ⊎ IsDependency
              (keyed (λ i. i.drv_path) ids inputs [])
              (keyed (λ i. i.job_name) ids inputs [])
              jobs
              ids
              x
              y)

abbrev pub start : Db → Progress
start db = record { table = db.builds; drv_to_build = []; name_to_build = []; build_ids = [] }

pub is_running_sound : (status : EvaluationStatus) → is_running status ≡ true → status ≡ running
is_running_sound status h = ground arith

edges_IsDependency :
    (a : Answers) (jobs : List NixJob) (inputs : List CreateBuild) (db : Db) (p : Progress)
    (after : List Edge) (c : Creates a 0 inputs (start db) p)
    → create_dependencies a 0
        (resolve_dependency_pairs p.drv_to_build p.name_to_build jobs p.build_ids)
        db.dependencies
      ≡ ok after
    → (x y : Uuid)
    → In (x, y) after ↔ (
        In (x, y) db.dependencies
        ⊎ IsDependency
            (keyed (λ i. i.drv_path) c.ids inputs [])
            (keyed (λ i. i.job_name) c.ids inputs [])
            jobs
            c.ids
            x
            y)
edges_IsDependency a jobs inputs db p after c h x y =
    let drvs = keyed (λ i. i.drv_path) c.ids inputs [] in
    let names = keyed (λ i. i.job_name) c.ids inputs [] in
    let same : resolve_dependency_pairs p.drv_to_build p.name_to_build jobs p.build_ids
        ≡ resolve_dependency_pairs drvs names jobs c.ids =
      cc (c.by_drv, c.by_name, c.collected) in
    let exact = (resolve_dependency_pairs_exact drvs names jobs c.ids).1 x y in
    ground (
      arith,
      linked a 0 (resolve_dependency_pairs drvs names jobs c.ids) db.dependencies after
          (subst (λ l. create_dependencies a 0 l db.dependencies ≡ ok after) same h) x y,
      exact,
    )

pub fill-IsFilled :
    (a : Answers) (jobs : List NixJob) (inputs : List CreateBuild) (db filled : Db)
    → db.status ≡ running
    → fill a jobs inputs db ≡ ok filled
    → IsFilled a jobs inputs db filled
unfolding fill finish_running_in_transaction
fill-IsFilled a jobs inputs db filled was h =
    elim (Result-cases (create_builds a 0 inputs (start db))) [
      | inr (e, k) ↦ absurd (ground (arith, k, h))
      | inl (p, k) ↦
          let c = create_builds-Creates a 0 inputs (start db) p k in
          let pairs = resolve_dependency_pairs p.drv_to_build p.name_to_build jobs p.build_ids in
          elim (Result-cases (create_dependencies a 0 pairs db.dependencies)) [
            | inr (e, l) ↦ absurd (ground (arith, k, l, h))
            | inl (after, l) ↦
                let same : filled
                    ≡ record { status = completed; builds = p.table; dependencies = after } =
                  ground (arith, k, l, h, was) in
                subst (IsFilled a jobs inputs db) (sym same) record {
                  was_running = was;
                  finished = refl;
                  ids = c.ids;
                  all = c.all;
                  rows = c.rows;
                  proper = c.proper;
                  links = edges_IsDependency a jobs inputs db p after c l;
                }
          ]
    ]
