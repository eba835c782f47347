-- ===== src/Builds/Rows.antt =====
-- crates/common/src/repo/builds.rs: what an update does to the row that `get` returns.
use circus.Common.{
  ℕ, ◌≡◌, refl, Bool, [], ◌∷◌, Option, none, some, arith, ◌&&◌, if◌then◌else◌, ◌==◌,
}
use circus.Models.Rows.{Build}
use circus.Rpc.Agent.{Uuid}
use circus.Builds.{
  Table, first_where, update_where, get, mark_signed, complete, Completion, set_completed, retry,
  requeue, set_signed, set_retried, set_requeued, is_running,
}

abbrev pub on_row : (Build → Build) → Option Build → Option Build
on_row set none = none
on_row set (some r) = some (set r)

-- What is true of a row that an id and a test single out.
module _ (id : Uuid) (test : Build → Bool) (set : Build → Build) where
  get-update_row :
      (t : Table)
      → ((r : Build) → (set r).id ≡ r.id)
      → get id (update_where (λ r. r.id == id && test r) set t)
        ≡ on_row (λ r. if test r then set r else r) (get id t)
  unfolding get
  get-update_row [] same = refl
  get-update_row (r ∷ t) same = ground (arith, same r, get-update_row t same)

module _ (id : Uuid) (set : Build → Build) where
  get-update_all :
      (t : Table)
      → ((r : Build) → (set r).id ≡ r.id)
      → get id (update_where (λ r. r.id == id) set t) ≡ on_row set (get id t)
  unfolding get
  get-update_all [] same = refl
  get-update_all (r ∷ t) same = ground (arith, same r, get-update_all t same)

  -- An update of the rows of an id returns what `get` then returns.
  first_where-get : (t : Table) → first_where (λ r. r.id == id) set t ≡ on_row set (get id t)
  unfolding get
  first_where-get [] = refl
  first_where-get (r ∷ t) = ground (arith, first_where-get t)

module _ (id : Uuid) where
  pub get-mark_signed : (t : Table) → get id (mark_signed id t) ≡ on_row set_signed (get id t)
  unfolding mark_signed
  get-mark_signed t = get-update_all id set_signed t (λ r. refl)

  pub get-retry : (t : Table) → get id (retry id t).table ≡ on_row set_retried (get id t)
  unfolding retry
  get-retry t = get-update_all id set_retried t (λ r. refl)

  pub get-complete :
      (now : ℕ) (c : Completion) (t : Table)
      → get id (complete now id c t).table ≡ on_row (set_completed now c) (get id t)
  unfolding complete
  get-complete now c t = get-update_all id (set_completed now c) t (λ r. refl)

  pub complete-returned :
      (now : ℕ) (c : Completion) (t : Table)
      → (complete now id c t).returned ≡ on_row (set_completed now c) (get id t)
  unfolding complete
  complete-returned now c t = first_where-get id (set_completed now c) t

  pub get-requeue :
      (t : Table)
      → get id (requeue id t).table
        ≡ on_row (λ r. if is_running r.status then set_requeued r else r) (get id t)
  unfolding requeue
  get-requeue t = get-update_row id (λ r. is_running r.status) set_requeued t (λ r. refl)
