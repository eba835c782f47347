-- ===== src/Builds/Once.antt =====
-- queries/builds.sql: the statements of the life cycle, one after the other, and the running builds of a
-- derivation.
use circus.Common.{
  ℕ, ◌+◌, ◌≤◌, ◌≡◌, ◌⊎◌, inl, inr, refl, sym, subst, Bool, true, false, ◌&&◌, List, [], ◌∷◌, String,
  arith, any, str_eq, ◌==◌, Bool-cases, eq_iff,
}
use circus.Rpc.Agent.{Uuid}
use circus.Models.BuildStatus.{BuildStatus, pending, is_finished}
use circus.Builds.Proper.{IsProper, IsCurrent, AllProper, AllCurrent}
use circus.Models.Rows.{Build}
use circus.Builds.{
  Table, is_running, runs, can_start, update_where, set_started, set_requeued, set_retried,
  set_restarted, set_notified, set_reset, is_orphan, set_features, set_signed, set_completed,
  set_cancelled, count_where, rows_of, Statement, insert_row, start_build, notify_started,
  requeue_build, retry_build, complete_build, cancel_build, restart_build, reset_orphans,
  keep_features, sign_build, start, mark_started_notified, requeue, retry, complete, cancel,
  restart, reset_orphaned_excluding, set_effective_features, mark_signed, apply, apply_all,
}

-- The running builds of a derivation.
abbrev pub running_of : String → Table → ℕ
running_of drv = count_where (runs drv)

pub record IsExclusive (t : Table) : Type 0 where
  pub keyed : (id : Uuid) → rows_of id t ≤ 1
  pub once : (drv : String) → running_of drv t ≤ 1

-- An update that counts no row which did not count before.
pub count_where-update :
    (p test : Build → Bool) (set : Build → Build) (t : Table)
    → ((r : Build) → test r ≡ true → p (set r) ≡ true → p r ≡ true)
    → count_where p (update_where test set t) ≤ count_where p t
count_where-update p test set [] h = omega arith
count_where-update p test set (r ∷ t) h = ground (arith, h r, count_where-update p test set t h)

shrink-IsExclusive :
    (test : Build → Bool) (set : Build → Build) (t : Table)
    → ((r : Build) → (set r).id ≡ r.id)
    → ((drv : String) (r : Build) → test r ≡ true → runs drv (set r) ≡ true → runs drv r ≡ true)
    → IsExclusive t
    → IsExclusive (update_where test set t)
shrink-IsExclusive test set t same fewer h = record {
  keyed = λ id. omega (
    arith,
    h.keyed id,
    count_where-update (λ r. r.id == id) test set t (λ r e k. ground (arith, same r, k)),
  );
  once = λ drv. omega (arith, h.once drv, count_where-update (runs drv) test set t (fewer drv));
}

-- What a start adds to the running builds of a derivation: no more than the rows that it starts.
pub running_of-started :
    (test : Build → Bool) (now : ℕ) (drv : String) (t : Table)
    → running_of drv (update_where test (set_started now) t)
      ≤ running_of drv t + count_where (λ r. test r && str_eq r.drv_path drv) t
running_of-started test now drv [] = omega arith
running_of-started test now drv (r ∷ t) = ground (arith, running_of-started test now drv t)

pub count_where-le :
    (p q : Build → Bool) (t : Table)
    → ((r : Build) → p r ≡ true → q r ≡ true)
    → count_where p t ≤ count_where q t
count_where-le p q [] h = omega arith
count_where-le p q (r ∷ t) h = ground (arith, h r, count_where-le p q t h)

counted_row : (p : Build → Bool) (t : Table) → (count_where p t ≡ 0) ⊎ ((r : Build) × (p r ≡ true))
counted_row p [] = inl refl
counted_row p (r ∷ t) = elim (Bool-cases (p r)) [
  | inl y ↦ inr (r, y)
  | inr n ↦ elim (counted_row p t) [ inl z ↦ inl (ground (arith, n, z)) | inr found ↦ inr found ]
]

pub none_counted : (p : Build → Bool) (t : Table) → any p t ≡ false → count_where p t ≡ 0
none_counted p [] h = refl
none_counted p (r ∷ t) h = ground (arith, none_counted p t)

start-once :
    (lock unlocked : Bool) (id : Uuid) (now : ℕ) (drv : String) (t : Table)
    → IsExclusive t
    → running_of drv (update_where (can_start lock unlocked t id) (set_started now) t) ≤ 1
start-once lock unlocked id now drv t h =
    let test = can_start lock unlocked t id in
    let p = λ (r : Build). test r && str_eq r.drv_path drv in
    let more = running_of-started test now drv t in
    elim (counted_row p t) [
      | inl z ↦ omega (arith, z, h.once drv, more)
      | inr (r, e) ↦
          let free : running_of drv t ≡ 0 =
            none_counted (runs drv) t (ground (arith, e, eq_iff r.drv_path drv)) in
          let few = count_where-le p (λ r. r.id == id) t (λ r k. ground (arith, k)) in
          omega (arith, free, few, h.keyed id, more)
    ]

start-IsExclusive :
    (now : ℕ) (lock unlocked : Bool) (id : Uuid) (t : Table)
    → IsExclusive t
    → IsExclusive (start now lock unlocked t id t).table
unfolding start
start-IsExclusive now lock unlocked id t h = record {
  keyed = λ i. omega (
    arith,
    h.keyed i,
    count_where-update (λ r. r.id == i) (can_start lock unlocked t id) (set_started now) t
        (λ r e k. k),
  );
  once = λ drv. start-once lock unlocked id now drv t h;
}

pub finished-ne-running : (v : BuildStatus) → is_finished v ≡ true → is_running v ≡ false
unfolding is_finished
finished-ne-running v h = ground arith

insert-IsExclusive :
    (r : Build) (t : Table)
    → r.status ≡ pending
    → rows_of r.id t ≡ 0
    → IsExclusive t
    → IsExclusive (r ∷ t)
insert-IsExclusive r t p fresh h = record {
  keyed = λ id. ground (arith, h.keyed id, fresh);
  once = λ drv. ground (arith, h.once drv, p);
}

pub apply-IsExclusive :
    (s : Statement) (t : Table)
    → IsProper s t
    → IsCurrent s t
    → IsExclusive t
    → IsExclusive (apply s t)
unfolding apply mark_started_notified requeue retry complete cancel restart reset_orphaned_excluding
    set_effective_features mark_signed
apply-IsExclusive (insert_row r) t (p, _, _, fresh) c h = insert-IsExclusive r t p fresh h
apply-IsExclusive (start_build now lock unlocked seen id) t p c h =
    subst (λ x. IsExclusive (start now lock unlocked x id t).table) (sym c)
      (start-IsExclusive now lock unlocked id t h)
apply-IsExclusive (notify_started id) t p c h =
    shrink-IsExclusive _ set_notified t (λ r. refl) (λ drv r e k. k) h
apply-IsExclusive (requeue_build id) t p c h =
    shrink-IsExclusive _ set_requeued t (λ r. refl) (λ drv r e k. ground (arith, k)) h
apply-IsExclusive (retry_build id) t p c h =
    shrink-IsExclusive _ set_retried t (λ r. refl) (λ drv r e k. ground (arith, k)) h
apply-IsExclusive (complete_build now id done) t p c h =
    shrink-IsExclusive _ (set_completed now done) t (λ r. refl)
      (λ drv r e k. ground (arith, k, finished-ne-running done.status p)) h
apply-IsExclusive (cancel_build now id) t p c h =
    shrink-IsExclusive _ (set_cancelled now) t (λ r. refl) (λ drv r e k. ground (arith, k)) h
apply-IsExclusive (restart_build id) t p c h =
    shrink-IsExclusive _ set_restarted t (λ r. refl) (λ drv r e k. ground (arith, k)) h
apply-IsExclusive (reset_orphans now age excluded) t p c h =
    shrink-IsExclusive (is_orphan now age excluded) set_reset t (λ r. refl)
      (λ drv r e k. ground (arith, k)) h
apply-IsExclusive (keep_features id features) t p c h =
    shrink-IsExclusive _ (set_features features) t (λ r. refl) (λ drv r e k. k) h
apply-IsExclusive (sign_build id) t p c h =
    shrink-IsExclusive _ set_signed t (λ r. refl) (λ drv r e k. k) h

-- Statements that come one after the other, each start with the table as its snapshot.
pub apply_all-IsExclusive :
    (statements : List Statement) (t : Table)
    → AllProper statements t
    → AllCurrent statements t
    → IsExclusive t
    → IsExclusive (apply_all statements t)
unfolding apply_all
apply_all-IsExclusive [] t p c h = h
apply_all-IsExclusive (s ∷ statements) t (p, ps) (c, cs) h =
    apply_all-IsExclusive statements (apply s t) ps cs (apply-IsExclusive s t p c h)
