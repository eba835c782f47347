-- ===== src/Rpc/Slots.antt =====
-- crates/queue-runner/src/rpc/pool.rs: `AgentMeta::try_acquire_slot` and the `Drop` of `SlotGuard`,
-- at the grain of the atomic operations on the shared counter `current_jobs`. Any number of tasks
-- contend; a schedule says which task makes its next operation.
pub mod Bounds
use circus.Common.{
  ℕ, zero, suc, ◌+◌, ◌-◌, ◌%◌, ◌^◌, Bool, not, ◌&&◌, List, [], ◌∷◌, leb, ◌==◌, if◌then◌else◌,
  replicate,
}

abbrev pub u32_mod : ℕ
u32_mod = 2 ^ 32

-- Where a task stands: outside of the loop, in the loop with the value `cur` that it read last,
-- holding a guard, or back from the loop with `None`.
pub data Phase : Type 0 where
  idle : Phase
  loaded : ℕ → Phase
  holding : Phase
  refused : Phase

-- The operations: the first load; one round of the loop, whose weak exchange may fail spuriously;
-- the drop of the guard.
pub data Operation : Type 0 where
  load : Operation
  exchange : Bool → Operation
  drop : Operation

pub record Shared : Type 0 where
  pub phase : Phase
  pub current_jobs : ℕ

-- One operation of a task in a phase. A task that is not where the operation starts does nothing.
unfoldable pub operate : ℕ → Operation → Phase → ℕ → Shared
operate max_jobs load idle c = record { phase = loaded c; current_jobs = c }
operate max_jobs load refused c = record { phase = loaded c; current_jobs = c }
operate max_jobs (exchange spurious) (loaded cur) c =
    if leb max_jobs cur
    then record { phase = refused; current_jobs = c }
    else if c == cur && not spurious
    then record { phase = holding; current_jobs = (cur + 1) % u32_mod }
    else record { phase = loaded c; current_jobs = c }
operate max_jobs drop holding c = record {
  phase = idle;
  current_jobs = (c + u32_mod - 1) % u32_mod;
}
operate max_jobs _ p c = record { phase = p; current_jobs = c }

pub record Slots : Type 0 where
  pub tasks : List Phase
  pub current_jobs : ℕ

-- The next operation of the task at a position; there is none behind the last task.
unfoldable pub step : ℕ → Operation → ℕ → List Phase → ℕ → Slots
unfolding operate
step max_jobs op i [] c = record { tasks = []; current_jobs = c }
step max_jobs op zero (p ∷ ps) c =
    let r = operate max_jobs op p c in
    record { tasks = r.phase ∷ ps; current_jobs = r.current_jobs }
step max_jobs op (suc i) (p ∷ ps) c =
    let r = step max_jobs op i ps c in record { tasks = p ∷ r.tasks; current_jobs = r.current_jobs }

unfoldable pub run : ℕ → List (ℕ × Operation) → Slots → Slots
run max_jobs [] s = s
run max_jobs ((i, op) ∷ schedule) s =
    run max_jobs schedule (step max_jobs op i s.tasks s.current_jobs)

-- The guards that are alive.
abbrev pub held : List Phase → ℕ
held [] = 0
held (holding ∷ ps) = suc (held ps)
held (_ ∷ ps) = held ps

-- `AtomicU32::new(0)`, before any task has begun.
abbrev pub fresh : ℕ → Slots
fresh contenders = record { tasks = replicate contenders idle; current_jobs = 0 }
