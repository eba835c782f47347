-- ===== src/Tests/Pool.antt =====
-- Tests of the pool of agents.
use circus.Common.{
  ◌≡◌, ℕ, ◌≤◌, refl, true, false, List, [], ◌∷◌, none, some, arith, ◌==◌, if◌then◌else◌,
}
use circus.Rpc.Slots.{Operation, load, exchange, drop, run, held, fresh}
use circus.Rpc.Slots.Bounds.{no_oversubscription}
use circus.Rpc.Agent.{Heap, AgentSnapshot, snapshot, write, with_jobs, try_acquire_slot}
use circus.Rpc.Pool.{AgentPool, get, insert, remove_if_connection}
use circus.Rpc.Pool.Registry.{stale_connection_keeps_replacement}
use circus.Tests.{agents, two_agents}

-- Two tasks contend for one slot.
abbrev contended : List (ℕ × Operation)
contended =
    (0, load)
    ∷ (1, load)
    ∷ (0, exchange false)
    ∷ (1, exchange false)
    ∷ (1, exchange true)
    ∷ (0, drop)
    ∷ []

no_oversubscription_example :
    ((run 1 contended (fresh 2)).current_jobs ≡ held (run 1 contended (fresh 2)).tasks)
    × (held (run 1 contended (fresh 2)).tasks ≤ 1)
no_oversubscription_example = no_oversubscription 1 2 contended (omega arith)

abbrev big_agent : AgentSnapshot ℕ
big_agent = snapshot (agents 1) 1

finds_agent_1 : get two_agents 1 ≡ some 1
unfolding get
finds_agent_1 = refl

-- Entry 3 is agent 1 after it came back under connection 13; its old connection is 11.
abbrev reconnected : AgentPool
reconnected = (insert agents two_agents 3).pool

stale_connection_keeps_replacement_example :
    (remove_if_connection agents reconnected 1 11 ≡ record { pool = reconnected; old = none })
    × (get (remove_if_connection agents reconnected 1 13).pool 2
        ≡ (if 1 == 2 then none else get reconnected 2))
    × ((remove_if_connection agents reconnected 1 13).old ≡ some 3)
unfolding insert
stale_connection_keeps_replacement_example =
    stale_connection_keeps_replacement agents two_agents 3 11 2 (λ e. omega (arith, e))

abbrev one_taken : Heap ℕ
one_taken = write agents 1 (with_jobs (agents 1) 2)

takes_slot : try_acquire_slot 1 agents ≡ some one_taken
unfolding try_acquire_slot
takes_slot = refl
