-- ===== src/Evaluator/Edges/Exact.antt =====
-- crates/evaluator/src/builds.rs, `resolve_dependency_pairs`: which edges there are.
use circus.Common.{
  ◌≡◌, ◌≢◌, ◌↔◌, ◌⊎◌, inl, inr, refl, subst, true, false, List, [], ◌∷◌, ◌++◌, Option, none, some,
  String, ◌==◌, arith, In, In-append_iff, NoRepeats, NoRepeats-snoc, Bool-cases,
}
use circus.Rpc.Agent.{Uuid}
use circus.Evaluator.Graph.{NixJob, get, items}
use circus.Evaluator.Edges.{
  Edge, has_edge, Resolved, add_edge, add_edges, resolve_jobs, resolve_dependency_pairs,
}

pub has_edge_iff : (a b : Uuid) (edges : List Edge) → (has_edge a b edges ≡ true) ↔ In (a, b) edges
has_edge_iff a b [] = (λ e. cc, λ m. absurd m)
has_edge_iff a b ((c, d) ∷ edges) = ground (arith, has_edge_iff a b edges)

-- What was seen is what was found, and nothing was found twice.
record IsInStep (s : Resolved) : Type 0 where
  same : (a b : Uuid) → In (a, b) s.seen ↔ In (a, b) s.pairs
  distinct : NoRepeats s.pairs

-- The edges that an operation adds.
record Adds (P : Uuid → Uuid → Type 0) (s s' : Resolved) : Type 0 where
  in_step : IsInStep s'
  exact : (a b : Uuid) → In (a, b) s'.pairs ↔ (In (a, b) s.pairs ⊎ P a b)

-- An edge to the build of a key, if there is one and it is another.
abbrev IsEdgeTo : Uuid → Option Uuid → Uuid → Uuid → Type 0
IsEdgeTo id dep a b = (a ≡ id) × (dep ≡ some b) × (a ≢ b)

add_new :
    (id dep : Uuid) (s : Resolved)
    → dep ≢ id
    → has_edge id dep s.seen ≡ false
    → IsInStep s
    → Adds
        (IsEdgeTo id (some dep))
        s
        (record { seen = (id, dep) ∷ s.seen; pairs = s.pairs ++ ((id, dep) ∷ []) })
add_new id dep s other new h = record {
  in_step = record {
    same = λ a b. ground (arith, h.same a b, In-append_iff (a, b) s.pairs ((id, dep) ∷ []));
    distinct =
        NoRepeats-snoc (id, dep) s.pairs
          (λ m. ground (arith, new, (has_edge_iff id dep s.seen).1 ((h.same id dep).1 m)))
          h.distinct;
  };
  exact = λ a b. ground (arith, other, In-append_iff (a, b) s.pairs ((id, dep) ∷ []));
}

add_edge-Adds :
    (id : Uuid) (dep : Option Uuid) (s : Resolved)
    → IsInStep s
    → Adds (IsEdgeTo id dep) s (add_edge id dep s)
unfolding add_edge
add_edge-Adds id none s h = record { in_step = h; exact = λ a b. ground arith }
add_edge-Adds id (some dep) s h = elim (Bool-cases (dep == id)) [
  | inl e ↦ rw e record { in_step = h; exact = λ a b. ground (arith, e) }
  | inr e ↦ elim (Bool-cases (has_edge id dep s.seen)) [
    | inl k ↦
        rw (e, k)
          record {
            in_step = h;
            exact = λ a b. ground (arith, (h.same id dep).0 ((has_edge_iff id dep s.seen).0 k));
          }
    | inr k ↦ rw (e, k) (add_new id dep s (ground (arith, e)) k h)
  ]
]

Adds-trans :
    {P Q : Uuid → Uuid → Type 0} (s s' s'' : Resolved)
    → Adds P s s'
    → Adds Q s' s''
    → Adds (λ a b. P a b ⊎ Q a b) s s''
Adds-trans s s' s'' h k = record {
  in_step = k.in_step;
  exact = λ a b. ground (arith, h.exact a b, k.exact a b);
}

Adds-iff :
    {P Q : Uuid → Uuid → Type 0} (s s' : Resolved)
    → ((a b : Uuid) → P a b ↔ Q a b)
    → Adds P s s'
    → Adds Q s s'
Adds-iff s s' f h = record {
  in_step = h.in_step;
  exact = λ a b. ground (arith, h.exact a b, f a b);
}

-- A key among those of a list whose build is the second one.
abbrev pub Names : List (String × Uuid) → List String → Uuid → Type 0
Names builds keys b = (key : String) × In key keys × (get builds key ≡ some b)

abbrev IsEdgeAmong : List (String × Uuid) → Uuid → List String → Uuid → Uuid → Type 0
IsEdgeAmong builds id keys a b = (a ≡ id) × (a ≢ b) × Names builds keys b

more_keys :
    (builds : List (String × Uuid)) (id : Uuid) (key : String) (keys : List String) (a b : Uuid)
    → (IsEdgeTo id (get builds key) a b ⊎ IsEdgeAmong builds id keys a b)
      ↔ IsEdgeAmong builds id (key ∷ keys) a b
more_keys builds id key keys a b = (
  λ h. elim h [
    | inl (e, g, n) ↦ (e, n, (key, inl refl, g))
    | inr (e, n, (k, m, g)) ↦ (e, n, (k, inr m, g))
  ],
  λ (e, n, (k, m, g)). elim m [
    | inl i ↦ inl (e, subst (λ x. get builds x ≡ some b) i g, n)
    | inr i ↦ inr (e, n, (k, i, g))
  ],
)

add_edges-Adds :
    (builds : List (String × Uuid)) (id : Uuid) (keys : List String) (s : Resolved)
    → IsInStep s
    → Adds (IsEdgeAmong builds id keys) s (add_edges builds id keys s)
unfolding add_edges
add_edges-Adds builds id [] s h = record {
  in_step = h;
  exact = λ a b. (λ m. inl m, λ m. elim m [ inl k ↦ k | inr (e, n, (k, z, g)) ↦ absurd z ]);
}
add_edges-Adds builds id (key ∷ keys) s h =
    let first = add_edge-Adds id (get builds key) s h in
    let rest = add_edges-Adds builds id keys (add_edge id (get builds key) s) first.in_step in
    Adds-iff s _ (more_keys builds id key keys) (Adds-trans s _ _ first rest)

-- A job and the id of its build, which stand at one place of the two lists.
abbrev pub IsBuiltAs : {A : Type 0} → A → Uuid → List A → List Uuid → Type 0
IsBuiltAs job id (j ∷ jobs) (i ∷ ids) = ((job ≡ j) × (id ≡ i)) ⊎ IsBuiltAs job id jobs ids
IsBuiltAs job id _ _ = ⊥

module _ (drv_to_build name_to_build : List (String × Uuid)) where
  -- A build of the first job depends on the second by an input or by a constituent.
  abbrev pub DependsOn : NixJob → Uuid → Type 0
  DependsOn job b =
      Names drv_to_build (items job.input_drvs) b ⊎ Names name_to_build (items job.constituents) b

  abbrev pub IsDependency : List NixJob → List Uuid → Uuid → Uuid → Type 0
  IsDependency jobs ids a b =
      (a ≢ b) × ((job : NixJob) × IsBuiltAs job a jobs ids × DependsOn job b)

  more_jobs :
      (job : NixJob) (id : Uuid) (jobs : List NixJob) (ids : List Uuid) (a b : Uuid)
      → ((IsEdgeAmong drv_to_build id (items job.input_drvs) a b
            ⊎ IsEdgeAmong name_to_build id (items job.constituents) a b)
          ⊎ IsDependency jobs ids a b)
        ↔ IsDependency (job ∷ jobs) (id ∷ ids) a b
  more_jobs job id jobs ids a b = (
    λ h. elim h [
      | inl k ↦ elim k [
        | inl (e, n, i) ↦ (n, (job, inl (refl, e), inl i))
        | inr (e, n, i) ↦ (n, (job, inl (refl, e), inr i))
      ]
      | inr (n, (j, m, d)) ↦ (n, (j, inr m, d))
    ],
    λ (n, (j, m, d)). elim m [
      | inl (same, e) ↦ elim (subst (λ x. DependsOn x b) same d) [
        | inl i ↦ inl (inl (e, n, i))
        | inr i ↦ inl (inr (e, n, i))
      ]
      | inr k ↦ inr (n, (j, k, d))
    ],
  )

  resolve_jobs-Adds :
      (jobs : List NixJob) (ids : List Uuid) (s : Resolved)
      → IsInStep s
      → Adds (IsDependency jobs ids) s (resolve_jobs drv_to_build name_to_build jobs ids s)
  unfolding resolve_jobs
  resolve_jobs-Adds (job ∷ jobs) (id ∷ ids) s h =
      let first = add_edges-Adds drv_to_build id (items job.input_drvs) s h in
      let second = add_edges-Adds name_to_build id (items job.constituents) _ first.in_step in
      let rest = resolve_jobs-Adds jobs ids _ second.in_step in
      Adds-iff s _ (more_jobs job id jobs ids)
        (Adds-trans s _ _ (Adds-trans s _ _ first second) rest)
  resolve_jobs-Adds (job ∷ jobs) [] s h = record {
    in_step = h;
    exact = λ a b. (λ m. inl m, λ m. elim m [ inl k ↦ k | inr (n, (j, z, d)) ↦ absurd z ]);
  }
  resolve_jobs-Adds [] ids s h = record {
    in_step = h;
    exact = λ a b. (λ m. inl m, λ m. elim m [ inl k ↦ k | inr (n, (j, z, d)) ↦ absurd z ]);
  }

  -- No edge is resolved twice, and there is one from a build to another exactly where the job of the
  -- first names the second: the second is the build that the maps hold for an input or a constituent of
  -- the job. No build depends on itself.
  pub resolve_dependency_pairs_exact :
      (jobs : List NixJob) (ids : List Uuid)
      → NoRepeats (resolve_dependency_pairs drv_to_build name_to_build jobs ids)
        × ((a b : Uuid)
            → In (a, b) (resolve_dependency_pairs drv_to_build name_to_build jobs ids)
              ↔ IsDependency jobs ids a b)
  unfolding resolve_dependency_pairs
  resolve_dependency_pairs_exact jobs ids =
      let nothing : Resolved = record { seen = []; pairs = [] } in
      let r =
        resolve_jobs-Adds jobs ids nothing
          record { same = λ a b. (λ m. m, λ m. m); distinct = tt } in
      (
        r.in_step.distinct,
        λ a b. (
          λ m. elim ((r.exact a b).0 m) [ inl z ↦ absurd z | inr d ↦ d ],
          λ d. (r.exact a b).1 (inr d),
        ),
      )
