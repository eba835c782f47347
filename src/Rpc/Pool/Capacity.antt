-- ===== src/Rpc/Pool/Capacity.antt =====
-- crates/queue-runner/src/rpc/pool.rs: what the saturating totals of the pool count.
use Prim.Native.Nat.{min}
use mathlib.Core.List.{Perm, Permᴰ}
use mathlib.Core.Logic.{∥∥₁_elim}
use native.Mathlib.Nat.{ℕ_set}
use circus.Common.{
  ℕ, ◌+◌, ◌-◌, ◌%◌, ◌≤◌, ◌<◌, ◌≡◌, refl, ◌∙◌, ap, List, [], ◌∷◌, map, some, arith, ◌==◌,
  if◌then◌else◌,
}
use circus.Rpc.Slots.{u32_mod}
use circus.Rpc.Agent.{
  Uuid, Handle, Heap, AgentMeta, max_u32, write, with_jobs, try_acquire_slot, drop_guard,
}
use circus.Rpc.Pool.{AgentPool, saturating_sum, total_free_slots, total_slots}

module _ {A : Type 0} (f : A → ℕ) where
  abbrev pub sum_by : List A → ℕ
  sum_by [] = 0
  sum_by (x ∷ xs) = f x + sum_by xs

  sum_by-permᴰ : {xs ys : List A} → Permᴰ xs ys → sum_by xs ≡ sum_by ys
  sum_by-permᴰ Permᴰ.nil = refl
  sum_by-permᴰ (Permᴰ.cons e p) = omega (arith, ap f e, sum_by-permᴰ p)
  sum_by-permᴰ (Permᴰ.swap e e') = omega (arith, ap f e, ap f e')
  sum_by-permᴰ (Permᴰ.trans p q) = sum_by-permᴰ p ∙ sum_by-permᴰ q

  sum_by-perm : {xs ys : List A} → Perm xs ys → sum_by xs ≡ sum_by ys
  sum_by-perm p = ∥∥₁_elim p (ℕ_set _ _) sum_by-permᴰ

  saturating_sum-eq :
      (acc : ℕ) (xs : List A)
      → acc ≤ max_u32
      → saturating_sum acc (map f xs) ≡ min (acc + sum_by xs) max_u32
  unfolding saturating_sum
  saturating_sum-eq acc [] h = omega arith
  saturating_sum-eq acc (x ∷ xs) h =
      omega (arith, saturating_sum-eq (min (acc + f x) max_u32) xs (omega arith))

-- The entries of the pool that hold a handle.
abbrev pub occurrences : Handle → AgentPool → ℕ
occurrences h [] = 0
occurrences h ((k, i) ∷ pool) = (if h == i then 1 else 0) + occurrences h pool

module _ {F : Type 0} where
  -- The free slots of the agents in the pool, and all of their slots, with no bound.
  abbrev pub free_sum : Heap F → AgentPool → ℕ
  free_sum heap = sum_by (λ e. (heap e.1).max_jobs - (heap e.1).current_jobs)

  abbrev pub slot_sum : Heap F → AgentPool → ℕ
  slot_sum heap = sum_by (λ e. (heap e.1).max_jobs)

  total_free_slots-eq :
      (heap : Heap F) (pool : AgentPool)
      → total_free_slots heap pool ≡ min (free_sum heap pool) max_u32
  unfolding total_free_slots
  total_free_slots-eq heap pool = omega (
    arith,
    saturating_sum-eq (λ (e : Uuid × Handle). (heap e.1).max_jobs - (heap e.1).current_jobs) 0 pool
        (omega arith),
  )

  total_slots-eq :
      (heap : Heap F) (pool : AgentPool) → total_slots heap pool ≡ min (slot_sum heap pool) max_u32
  unfolding total_slots
  total_slots-eq heap pool =
      omega
        (arith, saturating_sum-eq (λ (e : Uuid × Handle). (heap e.1).max_jobs) 0 pool (omega arith))

  free_sum-le-slot_sum :
      (heap : Heap F) (pool : AgentPool) → free_sum heap pool ≤ slot_sum heap pool
  free_sum-le-slot_sum heap [] = omega arith
  free_sum-le-slot_sum heap ((k, h) ∷ pool) = omega (arith, free_sum-le-slot_sum heap pool)

  -- The totals that the scheduler reads are the sums over the connected agents, cut off at the
  -- largest `u32`; they do not depend on the order in which the map yields its entries, and there
  -- are never more free slots than slots.
  totals_exact :
      (heap : Heap F) (pool pool' : AgentPool)
      → Perm pool pool'
      → (total_free_slots heap pool ≡ min (free_sum heap pool) max_u32)
        × (total_slots heap pool ≡ min (slot_sum heap pool) max_u32)
        × (total_free_slots heap pool ≡ total_free_slots heap pool')
        × (total_slots heap pool ≡ total_slots heap pool')
        × (total_free_slots heap pool ≤ total_slots heap pool)
  totals_exact heap pool pool' p = (
    total_free_slots-eq heap pool,
    total_slots-eq heap pool,
    omega (
      arith,
      total_free_slots-eq heap pool,
      total_free_slots-eq heap pool',
      sum_by-perm (λ (e : Uuid × Handle). (heap e.1).max_jobs - (heap e.1).current_jobs) p,
    ),
    omega (
      arith,
      total_slots-eq heap pool,
      total_slots-eq heap pool',
      sum_by-perm (λ (e : Uuid × Handle). (heap e.1).max_jobs) p,
    ),
    omega (
      arith,
      total_free_slots-eq heap pool,
      total_slots-eq heap pool,
      free_sum-le-slot_sum heap pool,
    ),
  )

  free_sum-write :
      (heap : Heap F) (h : Handle) (m : AgentMeta F) (pool : AgentPool)
      → (heap h).current_jobs < (heap h).max_jobs
      → m.max_jobs ≡ (heap h).max_jobs
      → m.current_jobs ≡ (heap h).current_jobs + 1
      → free_sum (write heap h m) pool + occurrences h pool ≡ free_sum heap pool
  free_sum-write heap h m [] lt e e' = refl
  free_sum-write heap h m ((k, i) ∷ pool) lt e e' =
      ground (arith, free_sum-write heap h m pool lt e e')

  -- A write to an entry that no key of the pool holds is not seen by the total.
  free_sum-write_absent :
      (heap : Heap F) (h : Handle) (m : AgentMeta F) (pool : AgentPool)
      → occurrences h pool ≡ 0
      → free_sum (write heap h m) pool ≡ free_sum heap pool
  free_sum-write_absent heap h m [] absent = refl
  free_sum-write_absent heap h m ((k, i) ∷ pool) absent =
      ground (arith, free_sum-write_absent heap h m pool)

  free_sum-congr :
      (a b : Heap F) (pool : AgentPool)
      → ((j : Handle) → (a j).max_jobs - (a j).current_jobs ≡ (b j).max_jobs - (b j).current_jobs)
      → free_sum a pool ≡ free_sum b pool
  free_sum-congr a b [] same = refl
  free_sum-congr a b ((k, i) ∷ pool) same = omega (arith, same i, free_sum-congr a b pool same)

  try_acquire_slot-eq-some :
      (heap taken : Heap F) (h : Handle)
      → try_acquire_slot h heap ≡ some taken
      → ((heap h).current_jobs < (heap h).max_jobs)
        × (taken ≡ write heap h (with_jobs (heap h) (((heap h).current_jobs + 1) % u32_mod)))
  unfolding try_acquire_slot
  try_acquire_slot-eq-some heap taken h e = ground arith

  free_sum-drop_taken :
      (heap : Heap F) (h : Handle) (pool : AgentPool)
      → (heap h).max_jobs < u32_mod
      → (heap h).current_jobs < (heap h).max_jobs
      → free_sum
          (drop_guard h (write heap h (with_jobs (heap h) (((heap h).current_jobs + 1) % u32_mod))))
          pool
        ≡ free_sum heap pool
  unfolding drop_guard
  free_sum-drop_taken heap h pool fits lt =
      free_sum-congr
        (drop_guard h (write heap h (with_jobs (heap h) (((heap h).current_jobs + 1) % u32_mod))))
        heap pool (λ j. ground arith)

  -- Taking a slot of an agent succeeds only below `max_jobs`, a `u32`; it raises that agent's counter
  -- by one and lowers the free slots of the pool by one for each key that holds the agent. Dropping
  -- the guard gives the slot back.
  acquire_drop_balance :
      (heap taken : Heap F) (h : Handle) (pool : AgentPool)
      → (heap h).max_jobs < u32_mod
      → try_acquire_slot h heap ≡ some taken
      → ((heap h).current_jobs < (heap h).max_jobs)
        × ((taken h).current_jobs ≡ (heap h).current_jobs + 1)
        × (free_sum taken pool + occurrences h pool ≡ free_sum heap pool)
        × (free_sum (drop_guard h taken) pool ≡ free_sum heap pool)
  acquire_drop_balance heap taken h pool fits e =
      let m = with_jobs (heap h) (((heap h).current_jobs + 1) % u32_mod) in
      let (lt, is) = try_acquire_slot-eq-some heap taken h e in
      rw is (
        lt,
        ground arith,
        free_sum-write heap h m pool lt refl (omega arith),
        free_sum-drop_taken heap h pool fits lt,
      )

  free_sum-drop_absent :
      (heap : Heap F) (h : Handle) (pool : AgentPool)
      → occurrences h pool ≡ 0
      → free_sum (drop_guard h heap) pool ≡ free_sum heap pool
  unfolding drop_guard
  free_sum-drop_absent heap h pool absent = free_sum-write_absent heap h _ pool absent

  -- A guard that outlives its agent's entry frees no slot of the agents in the pool, such as the one
  -- that has registered in its place.
  stale_guard_frees_nothing :
      (heap : Heap F) (h : Handle) (pool : AgentPool)
      → occurrences h pool ≡ 0
      → total_free_slots (drop_guard h heap) pool ≡ total_free_slots heap pool
  stale_guard_frees_nothing heap h pool absent = omega (
    arith,
    total_free_slots-eq heap pool,
    total_free_slots-eq (drop_guard h heap) pool,
    free_sum-drop_absent heap h pool absent,
  )
