-- ===== src/Evaluator/Graph/Expands.antt =====
-- crates/evaluator/src/builds.rs, `expand_derivation_graph`: what the loop has done when it returns, and
-- how one turn of it changes that.
use circus.Common.{
  ◌≡◌, ◌⊎◌, inl, inr, refl, sym, ◌∙◌, subst, true, List, [], ◌∷◌, ◌++◌, some, String, In, All,
  In-append_iff, append_assoc,
}
use circus.Evaluator.Graph.{
  NixJob, DerivationInfo, Derivations, get, items, should_enqueue_derivation, dependency_job,
  paths_of, inputs_of,
}

-- The derivations below the jobs that have to be built: an input of a job, or of a derivation that was
-- reached itself, if it is known, is no job already and has an output that is not valid.
module _ (jobs : List NixJob) (derivations : Derivations) (invalid : List String) where
  pub record IsWanted (drv : String) (info : DerivationInfo) : Type 0 where
    pub no_job : In drv (paths_of jobs) → ⊥
    pub known : get derivations drv ≡ some info
    pub has_to_be_built : should_enqueue_derivation info invalid ≡ true

  pub data IsReached : String → Type 0 where
    input_of_job :
        (drv : String) (info : DerivationInfo)
        → In drv (inputs_of jobs)
        → IsWanted drv info
        → IsReached drv
    input_of_derivation :
        (above drv : String) (info above_info : DerivationInfo)
        → IsReached above
        → get derivations above ≡ some above_info
        → In drv (items above_info.input_drvs)
        → IsWanted drv info
        → IsReached drv

  -- A job that was added for a derivation.
  abbrev pub IsMade : NixJob → Type 0
  IsMade j =
      (info : DerivationInfo) × (get derivations j.drv_path ≡ some info)
      × (j ≡ dependency_job j.drv_path info)

  -- No path stands among others or twice in the list.
  abbrev pub Fresh : List String → List String → Type 0
  Fresh included [] = Unit
  Fresh included (drv ∷ drvs) = (In drv included → ⊥) × Fresh (drv ∷ included) drvs

  -- What the loop returns.
  pub record Expands (included queued : List String) (expanded out : List NixJob) : Type 0 where
    pub added : List NixJob
    pub appended : out ≡ expanded ++ added
    pub fresh : Fresh included (paths_of added)
    pub made : All IsMade added
    pub reached : (drv : String) → In drv (paths_of added) → IsReached drv
    pub closed :
        (drv : String) (info : DerivationInfo)
        → In drv queued ⊎ In drv (inputs_of added)
        → get derivations drv ≡ some info
        → should_enqueue_derivation info invalid ≡ true
        → In drv included ⊎ In drv (paths_of added)

  -- What a queue may hold, and what a state of the loop is like.
  abbrev pub IsCandidate : String → Type 0
  IsCandidate drv = (info : DerivationInfo) → IsWanted drv info → IsReached drv

  pub record IsState (included queued : List String) : Type 0 where
    pub jobs_in : (drv : String) → In drv (paths_of jobs) → In drv included
    pub candidates : (drv : String) → In drv queued → IsCandidate drv

  pub skipped-Expands :
      (drv : String) (included queued : List String) (expanded out : List NixJob)
      → ((info : DerivationInfo)
          → get derivations drv ≡ some info
          → should_enqueue_derivation info invalid ≡ true
          → In drv included)
      → Expands included queued expanded out
      → Expands included (drv ∷ queued) expanded out
  skipped-Expands drv included queued expanded out why r = record {
    added = r.added;
    appended = r.appended;
    fresh = r.fresh;
    made = r.made;
    reached = r.reached;
    closed = λ d info m g h. elim m [
      | inr k ↦ r.closed d info (inr k) g h
      | inl k ↦ elim k [
        | inr i ↦ r.closed d info (inl i) g h
        | inl e ↦ inl (
            subst (λ x. In x included) (sym e)
              (why info (subst (λ x. get derivations x ≡ some info) e g) h))
      ]
    ];
  }

  pub added-Expands :
      (drv : String) (info : DerivationInfo) (included queued : List String)
      (expanded out : List NixJob)
      → IsWanted drv info
      → IsReached drv
      → (In drv included → ⊥)
      → Expands
          (drv ∷ included)
          (queued ++ items info.input_drvs)
          (expanded ++ (dependency_job drv info ∷ []))
          out
      → Expands included (drv ∷ queued) expanded out
  unfolding dependency_job
  added-Expands drv info included queued expanded out w reached_here new r = record {
    added = dependency_job drv info ∷ r.added;
    appended = r.appended ∙ append_assoc expanded (dependency_job drv info ∷ []) r.added;
    fresh = (new, r.fresh);
    made = ((info, w.known, refl), r.made);
    reached =
        λ d m. elim m [ inl e ↦ subst IsReached (sym e) reached_here | inr k ↦ r.reached d k ];
    closed = λ d i m g h.
        let move : In d (drv ∷ included) ⊎ In d (paths_of r.added)
            → In d included ⊎ In d (drv ∷ paths_of r.added) =
          λ k. elim k [
            | inl a ↦ elim a [ inl e ↦ inr (inl e) | inr b ↦ inl b ]
            | inr b ↦ inr (inr b)
          ] in
        elim m [
          | inl a ↦ elim a [
            | inl e ↦ inr (inl e)
            | inr b ↦ move (r.closed d i (inl ((In-append_iff d queued _).1 (inl b))) g h)
          ]
          | inr a ↦ elim ((In-append_iff d (items info.input_drvs) (inputs_of r.added)).0 a) [
            | inl b ↦ move (r.closed d i (inl ((In-append_iff d queued _).1 (inr b))) g h)
            | inr b ↦ move (r.closed d i (inr b) g h)
          ]
        ];
  }

  pub added-IsState :
      (drv : String) (info : DerivationInfo) (included queued : List String)
      → IsState included (drv ∷ queued)
      → IsReached drv
      → get derivations drv ≡ some info
      → IsState (drv ∷ included) (queued ++ items info.input_drvs)
  added-IsState drv info included queued s here g = record {
    jobs_in = λ d m. inr (s.jobs_in d m);
    candidates = λ d m. elim ((In-append_iff d queued (items info.input_drvs)).0 m) [
      | inl k ↦ s.candidates d (inr k)
      | inr k ↦ λ i wanted. input_of_derivation drv d i info here g k wanted
    ];
  }
