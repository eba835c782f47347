-- ===== src/Evaluator/Create/Inserts.antt =====
-- crates/evaluator/src/builds.rs, `create_builds_from_eval`: what the loop over the builds has done if no
-- query failed.
use circus.Common.{
  ℕ, suc, ◌≡◌, ◌⊎◌, inl, inr, refl, ap, sym, ◌∙◌, subst, false, List, [], ◌∷◌, ◌++◌, some, String,
  str_eq, eq_iff, any, arith, length, append_assoc, Bool-cases, Result-cases, ok, In, append_nil,
}
use circus.Models.Rows.{Build}
use circus.Rpc.Agent.{Uuid}
use circus.Builds.{Table, insert_row, Statement, apply, apply_all, rows_of}
use circus.Builds.Proper.{IsProper, AllProper}
use circus.Evaluator.Graph.{get}
use circus.Evaluator.Edges.Exact.{IsBuiltAs}
use circus.Evaluator.Describe.{CreateBuild}
use circus.Evaluator.Create.{
  Answers, Progress, new_row, clashes, create_in_transaction, create_builds, record_build,
}

-- The statements that insert the builds under their ids.
abbrev pub insertions : ℕ → List Uuid → List CreateBuild → List Statement
insertions now (id ∷ ids) (input ∷ inputs) =
    insert_row (new_row id now input) ∷ insertions now ids inputs
insertions now _ _ = []

-- The map after the loop has inserted the key of each build.
abbrev pub keyed :
    (CreateBuild → String)
    → List Uuid
    → List CreateBuild
    → List (String × Uuid)
    → List (String × Uuid)
keyed key (id ∷ ids) (input ∷ inputs) m = keyed key ids inputs ((key input, id) ∷ m)
keyed key _ _ m = m

pub record Creates (a : Answers) (n : ℕ) (inputs : List CreateBuild) (p p' : Progress)
    : Type 0 where
  pub ids : List Uuid
  pub collected : p'.build_ids ≡ p.build_ids ++ ids
  pub all : length ids ≡ length inputs
  pub made_up : (id : Uuid) → In id ids → (k : ℕ) × (id ≡ a.new_id k)
  pub rows : p'.table ≡ apply_all (insertions a.now ids inputs) p.table
  pub proper : AllProper (insertions a.now ids inputs) p.table
  pub by_drv : p'.drv_to_build ≡ keyed (λ i. i.drv_path) ids inputs p.drv_to_build
  pub by_name : p'.name_to_build ≡ keyed (λ i. i.job_name) ids inputs p.name_to_build

no_clash :
    (id : Uuid) (input : CreateBuild) (t : Table)
    → any (clashes id input) t ≡ false
    → rows_of id t ≡ 0
no_clash id input [] h = refl
no_clash id input (r ∷ t) h = ground (arith, no_clash id input t)

-- An insertion that succeeds makes the row, under an id that no row has.
inserted :
    (a : Answers) (n : ℕ) (input : CreateBuild) (t : Table) (r : Build)
    → create_in_transaction a n input t ≡ ok r
    → (r ≡ new_row (a.new_id n) a.now input) × (any (clashes (a.new_id n) input) t ≡ false)
unfolding create_in_transaction
inserted a n input t r h = ground arith

inserted-IsProper :
    (id : Uuid) (now : ℕ) (input : CreateBuild) (t : Table)
    → any (clashes id input) t ≡ false
    → IsProper (insert_row (new_row id now input)) t
inserted-IsProper id now input t h = (refl, refl, refl, no_clash id input t h)

pub create_builds-Creates :
    (a : Answers) (n : ℕ) (inputs : List CreateBuild) (p p' : Progress)
    → create_builds a n inputs p ≡ ok p'
    → Creates a n inputs p p'
unfolding create_builds apply_all apply
create_builds-Creates a n [] p p' h =
    let same : p ≡ p' = ground (arith, h) in
    subst (Creates a n [] p) same record {
      ids = [];
      collected = sym (append_nil p.build_ids);
      all = refl;
      made_up = λ id m. absurd m;
      rows = refl;
      proper = tt;
      by_drv = refl;
      by_name = refl;
    }
create_builds-Creates a n (input ∷ inputs) p p' h =
    elim (Result-cases (create_in_transaction a n input p.table)) [
      | inr (e, k) ↦ absurd (ground (arith, k, h))
      | inl (r, k) ↦
          let (made, free) = inserted a n input p.table r k in
          let go : create_builds a (suc n) inputs
                (record_build a (new_row (a.new_id n) a.now input) p)
              ≡ ok p' =
            ground (arith, k, h, made) in
          let c =
            create_builds-Creates a (suc n) inputs
              (record_build a (new_row (a.new_id n) a.now input) p) p' go in
          record {
            ids = a.new_id n ∷ c.ids;
            collected = c.collected ∙ append_assoc p.build_ids (a.new_id n ∷ []) c.ids;
            all = ap suc c.all;
            made_up = λ id m. elim m [ inl i ↦ (n, i) | inr i ↦ c.made_up id i ];
            rows = c.rows;
            proper = (inserted-IsProper (a.new_id n) a.now input p.table free, c.proper);
            by_drv = c.by_drv;
            by_name = c.by_name;
          }
    ]

-- What a map holds was there before or is a build with the key.
pub keyed_sound :
    (key : CreateBuild → String) (ids : List Uuid) (inputs : List CreateBuild)
    (m : List (String × Uuid)) (k : String) (b : Uuid)
    → get (keyed key ids inputs m) k ≡ some b
    → (get m k ≡ some b) ⊎ ((input : CreateBuild) × IsBuiltAs input b inputs ids × (key input ≡ k))
unfolding get
keyed_sound key [] inputs m k b h = inl h
keyed_sound key (id ∷ ids) [] m k b h = inl h
keyed_sound key (id ∷ ids) (input ∷ inputs) m k b h =
    elim (keyed_sound key ids inputs ((key input, id) ∷ m) k b h) [
      | inr (i, built, e) ↦ inr (i, inr built, e)
      | inl g ↦ elim (Bool-cases (str_eq (key input) k)) [
        | inl e ↦ inr (input, inl (refl, ground (arith, e, g)), (eq_iff (key input) k).0 e)
        | inr e ↦ inl (ground (arith, e, g))
      ]
    ]

keyed_keeps :
    (key : CreateBuild → String) (ids : List Uuid) (inputs : List CreateBuild)
    (m : List (String × Uuid)) (k : String) (b : Uuid)
    → get m k ≡ some b
    → (c : Uuid) × (get (keyed key ids inputs m) k ≡ some c)
unfolding get
keyed_keeps key [] inputs m k b h = (b, h)
keyed_keeps key (id ∷ ids) [] m k b h = (b, h)
keyed_keeps key (id ∷ ids) (input ∷ inputs) m k b h = elim (Bool-cases (str_eq (key input) k)) [
  | inl e ↦ keyed_keeps key ids inputs ((key input, id) ∷ m) k id (ground (arith, e))
  | inr e ↦ keyed_keeps key ids inputs ((key input, id) ∷ m) k b (ground (arith, e, h))
]

-- Every build is found under its key, or a later build with the same key is.
pub keyed_complete :
    (key : CreateBuild → String) (ids : List Uuid) (inputs : List CreateBuild)
    (m : List (String × Uuid)) (input : CreateBuild) (id : Uuid)
    → IsBuiltAs input id inputs ids
    → (c : Uuid) × (get (keyed key ids inputs m) (key input) ≡ some c)
unfolding get
keyed_complete key [] [] m input id h = absurd h
keyed_complete key [] (i ∷ inputs) m input id h = absurd h
keyed_complete key (j ∷ ids) [] m input id h = absurd h
keyed_complete key (j ∷ ids) (i ∷ inputs) m input id (inl (e, _)) =
    keyed_keeps key ids inputs ((key i, j) ∷ m) (key input) j
      (ground (arith, ap key e, eq_iff (key i) (key input)))
keyed_complete key (j ∷ ids) (i ∷ inputs) m input id (inr built) =
    keyed_complete key ids inputs ((key i, j) ∷ m) input id built
