-- ===== src/Builds/Cascade/Ends.antt =====
-- crates/common/src/repo/builds.rs: `cancel_cascade` ends.
use circus.Common.{
  ℕ, zero, suc, ◌+◌, ◌≤◌, ◌<◌, ◌≡◌, ◌≢◌, refl, inl, inr, Bool, ◌&&◌, List, [], ◌∷◌, length, some,
  arith, ◌==◌, List-cases, ap, ◌⊎◌, Option-cases,
}
use circus.Models.Rows.{Build}
use circus.Rpc.Agent.{Uuid}
use circus.Dispatch.Select.{Answer, answered, failed}
use circus.Builds.{
  Table, is_cancellable, set_cancelled, first_where, update_where, cancel, count_where,
}
use circus.Builds.Cascade.{
  Progress, out_of_fuel, cancel_one, cancel_each, cascade, cancellable_rows, cancel_cascade,
  cancel_target,
}

pub Answer-cases : {A : Type 0} (a : Answer A) → (a ≡ failed) ⊎ ((v : A) × (a ≡ answered v))
Answer-cases failed = inl refl
Answer-cases (answered v) = inr (v, refl)

module _ (now : ℕ) (dependents_of : Uuid → Answer (List Uuid)) (reaches : Uuid → Bool) where
  -- What is left to do: the ids on the stack, and the rows that could still be cancelled.
  abbrev left : Progress → ℕ
  left p = length p.to_cancel + cancellable_rows p.table

  fewer_rows :
      (id : Uuid) (t : Table)
      → cancellable_rows
            (update_where (λ r. r.id == id && is_cancellable r.status) (set_cancelled now) t)
          + count_where (λ r. r.id == id && is_cancellable r.status) t
        ≡ cancellable_rows t
  fewer_rows id [] = refl
  fewer_rows id (r ∷ t) = ground (arith, fewer_rows id t)

  found_counts :
      (test : Build → Bool) (set : Build → Build) (t : Table) (b : Build)
      → first_where test set t ≡ some b
      → 1 ≤ count_where test t
  found_counts test set [] b h = cc
  found_counts test set (r ∷ t) b h = ground (arith, found_counts test set t b)

  left-cancel_one :
      (id : Uuid) (p : Progress) → left (cancel_one now dependents_of reaches id p) ≤ left p
  unfolding cancel_one cancel
  left-cancel_one id p = elim (Option-cases (cancel now id p.table).returned) [
    | inl n ↦ ground (arith, n)
    | inr (b, e) ↦
        ground (arith, e, fewer_rows id p.table, found_counts _ (set_cancelled now) p.table b e)
  ]

  left-cancel_each :
      (ids : List Uuid) (p : Progress) → left (cancel_each now dependents_of reaches ids p) ≤ left p
  unfolding cancel_each
  left-cancel_each [] p = omega arith
  left-cancel_each (id ∷ ids) p = omega (
    arith,
    left-cancel_each ids (cancel_one now dependents_of reaches id p),
    left-cancel_one id p,
  )

  cascade-Ends :
      (fuel : ℕ) (p : Progress)
      → left p < fuel
      → cascade now dependents_of reaches fuel p ≢ out_of_fuel
  unfolding cascade
  cascade-Ends zero p h out = omega (arith, h)
  cascade-Ends (suc fuel) p h out = elim (List-cases p.to_cancel) [
    | inl e ↦ ground (arith, e, out)
    | inr (id, ids, e) ↦ elim (Answer-cases (dependents_of id)) [
      | inl k ↦ ground (arith, e, k, out)
      | inr (dependents, k) ↦
          let q = record p { to_cancel = ids } in
          cascade-Ends fuel (cancel_each now dependents_of reaches dependents q)
            (omega (arith, h, ap length e, left-cancel_each dependents q))
            (ground (arith, e, k, out))
    ]
  ]

  -- `cancel_cascade` returns, the cancelled builds or the error of a query, whatever depends on what,
  -- cycles included: the rounds are at most one more than the rows that can be cancelled.
  pub cancel_cascade-Ends :
      (id : Uuid) (t : Table) → cancel_cascade now dependents_of reaches id t ≢ out_of_fuel
  unfolding cancel_cascade cancel_target
  cancel_cascade-Ends id t =
      let p : Progress = record { table = t; to_cancel = []; cancelled = [] } in
      cascade-Ends (cancellable_rows t + 2) (cancel_target now dependents_of reaches id t)
        (omega (arith, left-cancel_one id p))
