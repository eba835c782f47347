-- ===== src/Builds/Starts/Counts.antt =====
-- queries/builds.sql: the rows that a start is about, counted.
use circus.Common.{
  ℕ, ◌+◌, ◌≤◌, ◌≡◌, ◌≢◌, inl, inr, refl, ◌∙◌, Bool, true, false, ◌&&◌, [], ◌∷◌, some, String, arith,
  any, str_eq, ◌==◌, Bool-cases, eq_iff,
}
use circus.Rpc.Agent.{Uuid}
use circus.Models.Rows.{Build}
use circus.Builds.Proper.{IsProper}
use circus.Builds.Starts.Fresh.{IsOther}
use circus.Builds.{
  Table, runs, is_candidate, can_start, first_where, update_where, set_started, set_requeued,
  set_retried, set_restarted, set_notified, set_reset, is_orphan, set_features, set_signed,
  set_completed, set_cancelled, count_where, rows_of, Statement, insert_row, start_build,
  notify_started, requeue_build, retry_build, complete_build, cancel_build, restart_build,
  reset_orphans, keep_features, sign_build, start, mark_started_notified, requeue, retry, complete,
  cancel, restart, reset_orphaned_excluding, set_effective_features, mark_signed, apply,
}
use circus.Builds.Once.{running_of, count_where-update, count_where-le, finished-ne-running}

-- The rows of a build for a derivation.
abbrev pub owned : Uuid → String → Table → ℕ
owned id drv = count_where (λ r. r.id == id && str_eq r.drv_path drv)

owned-le : (id : Uuid) (drv : String) (t : Table) → owned id drv t ≤ rows_of id t
owned-le id drv t =
    count_where-le (λ r. r.id == id && str_eq r.drv_path drv) (λ r. r.id == id) t
      (λ r e. ground (arith, e))

first_candidate :
    (id : Uuid) (r : Build) (t : Table)
    → first_where (is_candidate id) (λ x. x) t ≡ some r
    → 1 ≤ owned id r.drv_path t
first_candidate id r [] h = cc
first_candidate id r (x ∷ t) h = elim (Bool-cases (is_candidate id x)) [
  | inl y ↦ ground (arith, y, h, eq_iff r.drv_path r.drv_path)
  | inr n ↦ let later = first_candidate id r t (ground (arith, n, h)) in omega (arith, later)
]

-- The row of a candidate is the only one of its build.
pub candidate-owned :
    (id : Uuid) (r : Build) (t : Table)
    → first_where (is_candidate id) (λ x. x) t ≡ some r
    → rows_of id t ≤ 1
    → owned id r.drv_path t ≡ 1
candidate-owned id r t h k = omega (arith, k, first_candidate id r t h, owned-le id r.drv_path t)

pub any-count : (p : Build → Bool) (t : Table) → any p t ≡ true → 1 ≤ count_where p t
any-count p [] h = cc
any-count p (r ∷ t) h = ground (arith, h, any-count p t)

-- Rows that are counted once each.
disjoint-count :
    (p q s : Build → Bool) (t : Table)
    → ((r : Build) → p r ≡ true → s r ≡ true)
    → ((r : Build) → q r ≡ true → s r ≡ true)
    → ((r : Build) → p r ≡ true → q r ≡ false)
    → count_where p t + count_where q t ≤ count_where s t
disjoint-count p q s [] ps qs pq = omega arith
disjoint-count p q s (r ∷ t) ps qs pq =
    ground (arith, ps r, qs r, pq r, disjoint-count p q s t ps qs pq)

pub granted-lock :
    (lock unlocked : Bool) (seen : Table) (id : Uuid) (t : Table)
    → any (can_start lock unlocked seen id) t ≡ true
    → lock ≡ true
granted-lock lock unlocked seen id [] h = cc
granted-lock lock unlocked seen id (r ∷ t) h =
    ground (arith, h, granted-lock lock unlocked seen id t)

-- A start that is granted saw no running build of its derivation.
pub granted-unseen :
    (lock unlocked : Bool) (seen : Table) (id : Uuid) (drv : String) (t : Table)
    → any (can_start lock unlocked seen id) t ≡ true
    → rows_of id t ≤ 1
    → owned id drv t ≡ 1
    → any (runs drv) seen ≡ false
granted-unseen lock unlocked seen id drv t h k o = elim (Bool-cases (any (runs drv) seen)) [
  | inr n ↦ n
  | inl y ↦
      let p = can_start lock unlocked seen id in
      let q = λ (r : Build). r.id == id && str_eq r.drv_path drv in
      let both =
        disjoint-count p q (λ r. r.id == id) t (λ r e. ground (arith, e)) (λ r e. ground (arith, e))
          (λ r e. ground (arith, e, y, eq_iff r.drv_path drv)) in
      absurd (omega (arith, both, any-count p t h, k, o))
]

-- The rows of a build are all for one derivation.
pub owned_elsewhere :
    (id : Uuid) (d drv : String) (t : Table)
    → d ≢ drv
    → rows_of id t ≤ 1
    → owned id drv t ≡ 1
    → owned id d t ≡ 0
owned_elsewhere id d drv t n k o =
    let both =
      disjoint-count (λ r. r.id == id && str_eq r.drv_path d)
        (λ r. r.id == id && str_eq r.drv_path drv) (λ r. r.id == id) t (λ r e. ground (arith, e))
        (λ r e. ground (arith, e))
        (λ r e. ground (arith, e, n, eq_iff r.drv_path d, eq_iff r.drv_path drv)) in
    omega (arith, both, k, o)

count_where-same :
    (p test : Build → Bool) (set : Build → Build) (t : Table)
    → ((r : Build) → p (set r) ≡ p r)
    → count_where p (update_where test set t) ≡ count_where p t
count_where-same p test set [] h = refl
count_where-same p test set (r ∷ t) h = ground (arith, h r, count_where-same p test set t h)

module _ (id : Uuid) (drv : String) where
  abbrev mine : Build → Bool
  mine r = r.id == id && str_eq r.drv_path drv

  pub started-owned :
      (test : Build → Bool) (now : ℕ) (t : Table)
      → owned id drv (update_where test (set_started now) t) ≡ owned id drv t
  started-owned test now t = count_where-same mine test (set_started now) t (λ r. refl)

  inserted-owned :
      (r : Build) (t : Table) → rows_of r.id t ≡ 0 → owned id drv t ≡ 1 → owned id drv (r ∷ t) ≡ 1
  inserted-owned r t fresh o = let few = owned-le id drv t in ground (arith, fresh, o, few)

  -- No update takes a row away from its build or its derivation.
  pub apply-owned :
      (s : Statement) (t : Table) → IsProper s t → owned id drv t ≡ 1 → owned id drv (apply s t) ≡ 1
  unfolding apply start mark_started_notified requeue retry complete cancel restart
      reset_orphaned_excluding set_effective_features mark_signed
  apply-owned (insert_row r) t (_, _, _, fresh) o = inserted-owned r t fresh o
  apply-owned (start_build now lock unlocked seen i) t p o = started-owned _ now t ∙ o
  apply-owned (notify_started i) t p o = count_where-same mine _ set_notified t (λ r. refl) ∙ o
  apply-owned (requeue_build i) t p o = count_where-same mine _ set_requeued t (λ r. refl) ∙ o
  apply-owned (retry_build i) t p o = count_where-same mine _ set_retried t (λ r. refl) ∙ o
  apply-owned (complete_build now i c) t p o =
      count_where-same mine _ (set_completed now c) t (λ r. refl) ∙ o
  apply-owned (cancel_build now i) t p o =
      count_where-same mine _ (set_cancelled now) t (λ r. refl) ∙ o
  apply-owned (restart_build i) t p o = count_where-same mine _ set_restarted t (λ r. refl) ∙ o
  apply-owned (reset_orphans now age excluded) t p o =
      count_where-same mine _ set_reset t (λ r. refl) ∙ o
  apply-owned (keep_features i features) t p o =
      count_where-same mine _ (set_features features) t (λ r. refl) ∙ o
  apply-owned (sign_build i) t p o = count_where-same mine _ set_signed t (λ r. refl) ∙ o

-- Only a start makes a build run.
pub apply-running_of :
    (drv : String) (s : Statement) (t : Table)
    → IsProper s t
    → IsOther s
    → running_of drv (apply s t) ≤ running_of drv t
unfolding apply mark_started_notified requeue retry complete cancel restart reset_orphaned_excluding
    set_effective_features mark_signed
apply-running_of drv (insert_row r) t (e, _, _, _) n = ground (arith, e)
apply-running_of drv (start_build now lock unlocked seen id) t p n = absurd n
apply-running_of drv (notify_started id) t p n =
    count_where-update (runs drv) _ set_notified t (λ r e k. k)
apply-running_of drv (requeue_build id) t p n =
    count_where-update (runs drv) _ set_requeued t (λ r e k. ground (arith, k))
apply-running_of drv (retry_build id) t p n =
    count_where-update (runs drv) _ set_retried t (λ r e k. ground (arith, k))
apply-running_of drv (complete_build now id c) t p n =
    count_where-update (runs drv) _ (set_completed now c) t
      (λ r e k. ground (arith, k, finished-ne-running c.status p))
apply-running_of drv (cancel_build now id) t p n =
    count_where-update (runs drv) _ (set_cancelled now) t (λ r e k. ground (arith, k))
apply-running_of drv (restart_build id) t p n =
    count_where-update (runs drv) _ set_restarted t (λ r e k. ground (arith, k))
apply-running_of drv (reset_orphans now age excluded) t p n =
    count_where-update (runs drv) (is_orphan now age excluded) set_reset t
      (λ r e k. ground (arith, k))
apply-running_of drv (keep_features id features) t p n =
    count_where-update (runs drv) _ (set_features features) t (λ r e k. k)
apply-running_of drv (sign_build id) t p n =
    count_where-update (runs drv) _ set_signed t (λ r e k. k)
