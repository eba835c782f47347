-- ===== src/Evaluator/Create/Succeeds.antt =====
-- crates/evaluator/src/builds.rs, `create_builds_from_eval`: when the builds are created.
use circus.Common.{
  ℕ, suc, ◌≤◌, ◌≡◌, ◌≢◌, inl, inr, refl, ap, sym, ◌∙◌, subst, Bool, true, false, List, [], In-map,
  map-In, ◌∷◌, map, Option, some, String, eq_iff, arith, any, In, NoRepeats, ok,
}
use circus.Models.EvaluationStatus.{running, completed}
use circus.Models.Rows.{Build}
use circus.Rpc.Agent.{Uuid}
use circus.Builds.{Table}
use circus.Evaluator.Graph.{NixJob, Derivations, Check}
use circus.Evaluator.Edges.{Edge, has_edge, resolve_dependency_pairs}
use circus.Evaluator.Edges.Exact.{has_edge_iff, IsBuiltAs, resolve_dependency_pairs_exact}
use circus.Evaluator.Describe.{CreateBuild, Described, describe}
use circus.Evaluator.Create.{
  Answers, committed, Db, Progress, new_row, clashes, create_builds, create_in_transaction,
  create_dependencies, record_build, fill, finish_running_in_transaction, transaction,
  end_transaction, jobs_of_eval, create_builds_from_eval,
}
use circus.Evaluator.Create.Inserts.{Creates, create_builds-Creates}
use circus.Evaluator.Create.Fill.{start}

-- What the database answers when nothing goes wrong: every query succeeds, and the ids that it makes up
-- are new to the tables and to each other.
pub record IsHealthy (a : Answers) (db : Db) : Type 0 where
  pub connects : a.connects ≡ true
  pub locks : a.locks ≡ true
  pub inserts : (n : ℕ) → a.inserts n ≡ true
  pub links : (n : ℕ) → a.links n ≡ true
  pub finishes : a.finishes ≡ true
  pub commits : a.commit ≡ committed
  pub distinct : (m n : ℕ) → a.new_id m ≡ a.new_id n → m ≡ n
  pub no_row : (n : ℕ) (r : Build) → In r db.builds → r.id ≢ a.new_id n
  pub no_edge : (n : ℕ) (y : Uuid) → In (a.new_id n, y) db.dependencies → ⊥

-- No row of the table stands in the way of the inputs from a number on.
record IsFree (a : Answers) (n : ℕ) (inputs : List CreateBuild) (t : Table) : Type 0 where
  by_id : (r : Build) (k : ℕ) → In r t → n ≤ k → r.id ≢ a.new_id k
  by_name :
      (r : Build) (i : CreateBuild)
      → In r t
      → In i inputs
      → r.evaluation_id ≡ i.evaluation_id
      → r.job_name ≢ i.job_name

none_clash : (p : Build → Bool) (t : Table) → ((r : Build) → In r t → p r ≡ false) → any p t ≡ false
none_clash p [] h = refl
none_clash p (r ∷ t) h = ground (arith, h r (inl refl), none_clash p t (λ s m. h s (inr m)))

free_row :
    (a : Answers) (n : ℕ) (input : CreateBuild) (inputs : List CreateBuild) (t : Table)
    → IsFree a n (input ∷ inputs) t
    → (r : Build) → In r t
    → clashes (a.new_id n) input r ≡ false
free_row a n input inputs t f r m = ground (
  arith,
  f.by_id r n m (omega arith),
  f.by_name r input m (inl refl),
  eq_iff r.job_name input.job_name,
)

-- The new row leaves the way free for the other inputs.
free_after :
    (a : Answers) (n : ℕ) (input : CreateBuild) (inputs : List CreateBuild) (t : Table)
    → ((m k : ℕ) → a.new_id m ≡ a.new_id k → m ≡ k)
    → (In input.job_name (map (λ i. i.job_name) inputs) → ⊥)
    → IsFree a n (input ∷ inputs) t
    → IsFree a (suc n) inputs (new_row (a.new_id n) a.now input ∷ t)
free_after a n input inputs t distinct other f = record {
  by_id = λ r k m le. elim m [
    | inl e ↦ λ same. absurd (omega (arith, le, distinct n k (sym (ap (λ x. x.id) e) ∙ same)))
    | inr i ↦ f.by_id r k i (omega (arith, le))
  ];
  by_name = λ r i m n. elim m [
    | inl e ↦ λ same name. other (
        subst (λ x. In x (map (λ j. j.job_name) inputs)) (sym name ∙ ap (λ x. x.job_name) e)
          (In-map (λ j. j.job_name) i inputs n))
    | inr k ↦ f.by_name r i k (inr n)
  ];
}

create_builds-eq-ok :
    (a : Answers) (n : ℕ) (inputs : List CreateBuild) (p : Progress)
    → ((k : ℕ) → a.inserts k ≡ true)
    → ((m k : ℕ) → a.new_id m ≡ a.new_id k → m ≡ k)
    → NoRepeats (map (λ i. i.job_name) inputs)
    → IsFree a n inputs p.table
    → (p' : Progress) × (create_builds a n inputs p ≡ ok p')
unfolding create_builds create_in_transaction
create_builds-eq-ok a n [] p works distinct names f = (p, refl)
create_builds-eq-ok a n (input ∷ inputs) p works distinct (other, names) f =
    let free =
      none_clash (clashes (a.new_id n) input) p.table (free_row a n input inputs p.table f) in
    let (p', e) =
      create_builds-eq-ok a (suc n) inputs (record_build a (new_row (a.new_id n) a.now input) p)
        works distinct names (free_after a n input inputs p.table distinct other f) in
    (p', ground (arith, works n, free, e))

create_dependencies-eq-ok :
    (a : Answers) (n : ℕ) (pairs before : List Edge)
    → ((k : ℕ) → a.links k ≡ true)
    → NoRepeats pairs
    → ((x y : Uuid) → In (x, y) pairs → In (x, y) before → ⊥)
    → (after : List Edge) × (create_dependencies a n pairs before ≡ ok after)
unfolding create_dependencies
create_dependencies-eq-ok a n [] before works h new = (before, refl)
create_dependencies-eq-ok a n ((b, d) ∷ pairs) before works (h, hs) new =
    let free : has_edge b d before ≡ false =
      ground (arith, has_edge_iff b d before, new b d (inl refl)) in
    let (after, e) =
      create_dependencies-eq-ok a (suc n) pairs ((b, d) ∷ before) works hs (λ x y m i. elim i [
        | inl same ↦ h (subst (λ z. In {A = Edge} z pairs) same m)
        | inr j ↦ new x y (inr m) j
      ]) in
    (after, ground (arith, works n, free, e))

IsBuiltAs-id :
    {A : Type 0} (x : A) (id : Uuid) (xs : List A) (ids : List Uuid)
    → IsBuiltAs x id xs ids
    → In id ids
IsBuiltAs-id x id [] ids h = absurd h
IsBuiltAs-id x id (y ∷ xs) [] h = absurd h
IsBuiltAs-id x id (y ∷ xs) (i ∷ ids) (inl (_, e)) = inl e
IsBuiltAs-id x id (y ∷ xs) (i ∷ ids) (inr h) = inr (IsBuiltAs-id x id xs ids h)

-- An edge that is resolved starts at a new build.
new_edge :
    (a : Answers) (jobs : List NixJob) (inputs : List CreateBuild) (db : Db) (p : Progress)
    → IsHealthy a db
    → Creates a 0 inputs (start db) p
    → (x y : Uuid)
    → In (x, y) (resolve_dependency_pairs p.drv_to_build p.name_to_build jobs p.build_ids)
    → In (x, y) db.dependencies
    → ⊥
new_edge a jobs inputs db p ready c x y m old =
    let (_, (job, built, _)) =
      ((resolve_dependency_pairs_exact p.drv_to_build p.name_to_build jobs p.build_ids).1 x y).0
        m in
    let (k, e) =
      c.made_up x (subst (λ l. In x l) c.collected (IsBuiltAs-id job x jobs p.build_ids built)) in
    ready.no_edge k y (subst (λ z. In {A = Edge} (z, y) db.dependencies) e old)

fill-eq-ok :
    (a : Answers) (jobs : List NixJob) (inputs : List CreateBuild) (db : Db)
    → IsHealthy a db
    → db.status ≡ running
    → NoRepeats (map (λ i. i.job_name) inputs)
    → IsFree a 0 inputs db.builds
    → (filled : Db) × (fill a jobs inputs db ≡ ok filled)
unfolding fill finish_running_in_transaction
fill-eq-ok a jobs inputs db ready was names f =
    let (p, e) = create_builds-eq-ok a 0 inputs (start db) ready.inserts ready.distinct names f in
    let c = create_builds-Creates a 0 inputs (start db) p e in
    let pairs = resolve_dependency_pairs p.drv_to_build p.name_to_build jobs p.build_ids in
    let once = (resolve_dependency_pairs_exact p.drv_to_build p.name_to_build jobs p.build_ids).0 in
    let (after, k) =
      create_dependencies-eq-ok a 0 pairs db.dependencies ready.links once
        (new_edge a jobs inputs db p ready c) in
    (
      record { status = completed; builds = p.table; dependencies = after },
      ground (arith, e, k, ready.finishes, was),
    )

healthy_transaction :
    (a : Answers) (jobs : List NixJob) (inputs : List CreateBuild) (db : Db)
    → IsHealthy a db
    → db.status ≡ running
    → NoRepeats (map (λ i. i.job_name) inputs)
    → IsFree a 0 inputs db.builds
    → (end_transaction a.commit db (transaction a jobs inputs db)).answer ≡ ok true
unfolding transaction end_transaction
healthy_transaction a jobs inputs db ready was names f =
    let (filled, e) = fill-eq-ok a jobs inputs db ready was names f in
    ground (arith, e, ready.connects, ready.locks, ready.commits, was)

names-describe :
    (d : Described) (eval_id : Uuid) (derivations : Derivations) (jobs : List NixJob)
    → map (λ i. i.job_name) (map (describe d eval_id derivations) jobs) ≡ map (λ j. j.name) jobs
unfolding describe
names-describe d eval_id derivations [] = refl
names-describe d eval_id derivations (j ∷ jobs) =
    ap (λ l. j.name ∷ l) (names-describe d eval_id derivations jobs)

described-IsFree :
    (d : Described) (a : Answers) (eval_id : Uuid) (derivations : Derivations) (jobs : List NixJob)
    (db : Db)
    → IsHealthy a db
    → ((r : Build) → In r db.builds → r.evaluation_id ≢ eval_id)
    → IsFree a 0 (map (describe d eval_id derivations) jobs) db.builds
unfolding describe
described-IsFree d a eval_id derivations jobs db ready empty = record {
  by_id = λ r k m le. ready.no_row k r m;
  by_name = λ r i m n same.
      let (j, _, e) = map-In (describe d eval_id derivations) i jobs n in
      absurd (empty r m (same ∙ ap (λ x. x.evaluation_id) e));
}

-- If the evaluation runs and has no builds yet, no two of its jobs share a name, and no query breaks, the
-- builds are created: no unique key of the tables is ever in the way, neither of the builds nor of the
-- edges between them.
pub create_builds_from_eval-succeeds :
    (d : Described) (a : Answers) (eval_id : Uuid) (allowed : Option (List String))
    (derivations : Derivations) (check : Check) (jobs kept : List NixJob) (db : Db)
    → jobs_of_eval allowed derivations check jobs ≡ some kept
    → IsHealthy a db
    → db.status ≡ running
    → ((r : Build) → In r db.builds → r.evaluation_id ≢ eval_id)
    → NoRepeats (map (λ j. j.name) kept)
    → (create_builds_from_eval d a eval_id allowed derivations check jobs db).answer ≡ ok true
unfolding create_builds_from_eval
create_builds_from_eval-succeeds d a eval_id allowed derivations check jobs kept db e ready was
      empty names =
    let inputs = map (describe d eval_id derivations) kept in
    rw (e, create_builds_from_eval)
      (healthy_transaction a kept inputs db ready was
        (subst NoRepeats (sym (names-describe d eval_id derivations kept)) names)
        (described-IsFree d a eval_id derivations kept db ready empty))
