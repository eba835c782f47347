-- ===== src/Builds/Cascade/Closed.antt =====
-- crates/common/src/repo/builds.rs: what `cancel_cascade` leaves is closed under dependency.
use circus.Common.{
  ℕ, zero, suc, ◌≤◌, ◌≡◌, refl, sym, subst, ◌⊎◌, inl, inr, Bool, true, ◌&&◌, List, [], ◌∷◌, ◌++◌,
  none, some, arith, In, ◌==◌, Option-cases, List-cases, Bool-cases,
}
use circus.Models.Rows.{Build}
use circus.Rpc.Agent.{Uuid}
use circus.Dispatch.Select.{Answer, answered}
use circus.Builds.{
  Table, is_cancellable, set_cancelled, first_where, update_where, cancel, count_where,
}
use circus.Builds.Cascade.{
  Progress, finished, cancel_one, cancel_each, cascade, cancel_cascade, cancel_target,
}
use circus.Builds.Cascade.Ends.{Answer-cases}

abbrev of_id : Uuid → Build → Bool
of_id id r = r.id == id && is_cancellable r.status

-- No row of the id can be cancelled any more.
abbrev pub IsSettled : Table → Uuid → Type 0
IsSettled t id = count_where (of_id id) t ≡ 0

abbrev pub ids_of : List Build → List Uuid
ids_of [] = []
ids_of (b ∷ builds) = b.id ∷ ids_of builds

In-ids_of_append :
    (x : Uuid) (builds : List Build) (b : Build)
    → In x (ids_of (builds ++ (b ∷ [])))
    → In x (ids_of builds) ⊎ (x ≡ b.id)
In-ids_of_append x [] b h = ground (arith, h)
In-ids_of_append x (c ∷ builds) b h = ground (arith, h, In-ids_of_append x builds b)

module _ (now : ℕ) (id : Uuid) where
  cancel-settles : (t : Table) → IsSettled (update_where (of_id id) (set_cancelled now) t) id
  cancel-settles [] = refl
  cancel-settles (r ∷ t) = ground (arith, cancel-settles t)

  cancel-keeps :
      (other : Uuid) (t : Table)
      → count_where (of_id other) (update_where (of_id id) (set_cancelled now) t)
        ≤ count_where (of_id other) t
  cancel-keeps other [] = omega arith
  cancel-keeps other (r ∷ t) = ground (arith, cancel-keeps other t)

  none-IsSettled :
      (t : Table) → first_where (of_id id) (set_cancelled now) t ≡ none → IsSettled t id
  none-IsSettled [] h = refl
  none-IsSettled (r ∷ t) h = ground (arith, none-IsSettled t)

  returned-id :
      (t : Table) (b : Build) → first_where (of_id id) (set_cancelled now) t ≡ some b → b.id ≡ id
  returned-id [] b h = cc
  returned-id (r ∷ t) b h = ground (arith, returned-id t b)

-- What a part of the loop keeps.
record Grows (p q : Progress) : Type 0 where
  waiting : (x : Uuid) → In x p.to_cancel → In x q.to_cancel
  settled : (x : Uuid) → IsSettled p.table x → IsSettled q.table x
  fresh : (x : Uuid) → In x (ids_of q.cancelled) → In x (ids_of p.cancelled) ⊎ In x q.to_cancel

Grows-refl : (p : Progress) → Grows p p
Grows-refl p = record { waiting = λ x h. h; settled = λ x h. h; fresh = λ x h. inl h }

Grows-trans : (p q r : Progress) → Grows p q → Grows q r → Grows p r
Grows-trans p q r g h = record {
  waiting = λ x i. h.waiting x (g.waiting x i);
  settled = λ x i. h.settled x (g.settled x i);
  fresh = λ x i. elim (h.fresh x i) [
    | inr later ↦ inr later
    | inl sooner ↦ elim (g.fresh x sooner) [ inl old ↦ inl old | inr new ↦ inr (h.waiting x new) ]
  ];
}

module _ (now : ℕ) (dependents_of : Uuid → Answer (List Uuid)) (reaches : Uuid → Bool) where
  abbrev one : Uuid → Progress → Progress
  one = cancel_one now dependents_of reaches

  abbrev each : List Uuid → Progress → Progress
  each = cancel_each now dependents_of reaches

  one-Grows : (id : Uuid) (p : Progress) → Grows p (one id p)
  unfolding cancel_one cancel
  one-Grows id p = elim (Bool-cases (reaches id)) [
    | inr n ↦ subst (Grows p) (sym (ground (arith, n))) (Grows-refl p)
    | inl y ↦ elim (Option-cases (cancel now id p.table).returned) [
      | inl n ↦ subst (Grows p) (sym (ground (arith, y, n))) (Grows-refl p)
      | inr (b, e) ↦
          let q : Progress = record {
            table = (cancel now id p.table).table;
            to_cancel = id ∷ p.to_cancel;
            cancelled = p.cancelled ++ (b ∷ []);
          } in
          let same : one id p ≡ q = ground (arith, y, e) in
          subst (Grows p) (sym same) (record {
            waiting = λ x h. inr h;
            settled = λ x h. omega (arith, h, cancel-keeps now id x p.table);
            fresh = λ x h.
                ground (arith, In-ids_of_append x p.cancelled b h, returned-id now id p.table b e);
          })
    ]
  ]

  one-settles : (id : Uuid) (p : Progress) → reaches id ≡ true → IsSettled (one id p).table id
  unfolding cancel_one cancel
  one-settles id p y = elim (Option-cases (cancel now id p.table).returned) [
    | inl n ↦ ground (arith, y, n, none-IsSettled now id p.table n)
    | inr (b, e) ↦ ground (arith, y, e, cancel-settles now id p.table)
  ]

  each-Grows : (ids : List Uuid) (p : Progress) → Grows p (each ids p)
  unfolding cancel_each
  each-Grows [] p = Grows-refl p
  each-Grows (id ∷ ids) p =
      Grows-trans p (one id p) (each ids (one id p)) (one-Grows id p) (each-Grows ids (one id p))

  each-settles :
      (ids : List Uuid) (p : Progress) (d : Uuid)
      → In d ids
      → reaches d ≡ true
      → IsSettled (each ids p).table d
  unfolding cancel_each
  each-settles [] p d i y = elim i [ ]
  each-settles (id ∷ ids) p d (inl e) y =
      (each-Grows ids (one id p)).settled d
        (subst (IsSettled (one id p).table) (sym e) (one-settles id p (ground (arith, e, y))))
  each-settles (id ∷ ids) p d (inr i) y = each-settles ids (one id p) d i y

  -- A direct dependent, as the query answers.
  abbrev pub Depends : Uuid → Uuid → Type 0
  Depends d x = (ds : List Uuid) × (dependents_of x ≡ answered ds) × In d ds

  abbrev Closed : Table → Uuid → Type 0
  Closed t x = (d : Uuid) → Depends d x → reaches d ≡ true → IsSettled t d

  abbrev Covered : Progress → Uuid → Type 0
  Covered p x = In x p.to_cancel ⊎ Closed p.table x

  -- The target or a build that was cancelled.
  abbrev Reached : Uuid → List Build → Uuid → Type 0
  Reached target builds x = (x ≡ target) ⊎ In x (ids_of builds)

  popped : Progress → List Uuid → Progress
  popped p ids = record p { to_cancel = ids }

  round-Covered :
      (target id : Uuid) (ids ds : List Uuid) (p : Progress)
      → p.to_cancel ≡ id ∷ ids
      → dependents_of id ≡ answered ds
      → ((x : Uuid) → Reached target p.cancelled x → Covered p x)
      → (x : Uuid) → Reached target (each ds (popped p ids)).cancelled x
      → Covered (each ds (popped p ids)) x
  unfolding popped
  round-Covered target id ids ds p e k covered x reached = elim reached [
    | inl is_target ↦ old (inl is_target)
    | inr i ↦ elim (grows.fresh x i) [ inl sooner ↦ old (inr sooner) | inr new ↦ inl new ]
  ]
    where
      grows : Grows (popped p ids) (each ds (popped p ids))
      grows = each-Grows ds (popped p ids)

      top : x ≡ id → Closed (each ds (popped p ids)).table x
      top same d (asked, k', i) y =
          each-settles ds (popped p ids) d (ground (arith, same, k, k', i)) y

      stacked : In x (id ∷ ids) → Covered (each ds (popped p ids)) x
      stacked (inl same) = inr (top same)
      stacked (inr i) = inl (grows.waiting x i)

      old : Reached target p.cancelled x → Covered (each ds (popped p ids)) x
      old r = elim (covered x r) [
        | inl w ↦ stacked (subst (In x) e w)
        | inr closed ↦ inr (λ d depends y. grows.settled d (closed d depends y))
      ]

  cascade-Closed :
      (fuel : ℕ) (target : Uuid) (p : Progress) (t : Table) (builds : List Build)
      → ((x : Uuid) → Reached target p.cancelled x → Covered p x)
      → cascade now dependents_of reaches fuel p ≡ finished t builds
      → (x : Uuid) → Reached target builds x
      → Closed t x
  unfolding cascade popped
  cascade-Closed zero target p t builds covered out x reached d depends y = ground (arith, out)
  cascade-Closed (suc fuel) target p t builds covered out x reached d depends y =
      elim (List-cases p.to_cancel) [
        | inl e ↦
            let (same_table, same_builds) : (p.table ≡ t) × (p.cancelled ≡ builds) =
              ground (arith, e, out) in
            elim (covered x (subst (λ bs. Reached target bs x) (sym same_builds) reached)) [
              | inl w ↦ elim (subst (In x) e w) [ ]
              | inr closed ↦ subst (λ t1. IsSettled t1 d) same_table (closed d depends y)
            ]
        | inr (id, ids, e) ↦ elim (Answer-cases (dependents_of id)) [
          | inl k ↦ ground (arith, e, k, out)
          | inr (ds, k) ↦
              cascade-Closed fuel target (each ds (popped p ids)) t builds
                (round-Covered target id ids ds p e k covered) (ground (arith, e, k, out)) x reached
                d depends y
        ]
      ]

  first_cancelled :
      (id x : Uuid) (t : Table)
      → In x (ids_of (cancel_target now dependents_of reaches id t).cancelled)
      → x ≡ id
  unfolding cancel_target cancel_one cancel
  first_cancelled id x t h = elim (Option-cases (cancel now id t).returned) [
    | inl n ↦ ground (arith, n, h)
    | inr (b, e) ↦ ground (arith, e, h, returned-id now id t b e)
  ]

  -- When `cancel_cascade` is done, what depends on the target or on a build that it has cancelled has no
  -- row that could still be cancelled, whether the target was cancelled or not, and whatever depends on
  -- what. The cancellation of that dependent reaches the database.
  pub cancel_cascade-Closed :
      (id : Uuid) (t t' : Table) (builds : List Build) (x d : Uuid)
      → cancel_cascade now dependents_of reaches id t ≡ finished t' builds
      → (x ≡ id) ⊎ In x (ids_of builds)
      → Depends d x
      → reaches d ≡ true
      → IsSettled t' d
  unfolding cancel_cascade
  cancel_cascade-Closed id t t' builds x d out reached depends y =
      cascade-Closed _ id (cancel_target now dependents_of reaches id t) t' builds start out x
        reached d depends y
    where
      start :
          (z : Uuid)
          → Reached id (cancel_target now dependents_of reaches id t).cancelled z
          → Covered (cancel_target now dependents_of reaches id t) z
      start z (inl same) = inl (inl same)
      start z (inr i) = inl (inl (first_cancelled id z t i))
