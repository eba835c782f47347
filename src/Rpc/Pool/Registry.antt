-- ===== src/Rpc/Pool/Registry.antt =====
-- crates/queue-runner/src/rpc/pool.rs: the pool maps each machine to at most one entry, and a
-- connection that has been replaced cannot remove its successor.
use circus.Common.{◌≡◌, ◌≢◌, none, some, [], ◌∷◌, arith, ◌==◌, ◌&&◌, if◌then◌else◌}
use circus.Rpc.Agent.{Uuid, Handle, Heap}
use circus.Rpc.Pool.{AgentPool, get, without, insert, remove, remove_if_connection}

get-without :
    (pool : AgentPool) (k j : Uuid) → get (without pool k) j ≡ (if k == j then none else get pool j)
unfolding get without
get-without [] k j = ground arith
get-without ((i, h) ∷ pool) k j = ground (arith, get-without pool k j)

module _ {F : Type 0} (heap : Heap F) where
  pub get-insert :
      (pool : AgentPool) (h : Handle) (j : Uuid)
      → get (insert heap pool h).pool j ≡ (if (heap h).machine_id == j then some h else get pool j)
  unfolding get insert
  get-insert pool h j = ground (arith, get-without pool (heap h).machine_id j)

  -- What the end of a connection does to the pool: it removes exactly the entry of its machine, and
  -- only if that entry is its own.
  remove_if_connection_exact :
      (pool : AgentPool) (k c j : Uuid) (h : Handle)
      → get pool k ≡ some h
      → (get (remove_if_connection heap pool k c).pool j
          ≡ (if ((heap h).connection_id == c) && (k == j) then none else get pool j))
        × ((remove_if_connection heap pool k c).old
            ≡ (if (heap h).connection_id == c then some h else none))
  unfolding remove_if_connection remove
  remove_if_connection_exact pool k c j h found = ground (arith, found, get-without pool k j)

  -- After a machine has registered again under another connection, the end of its old connection
  -- removes nothing, and the end of the new one removes exactly this machine's entry.
  pub stale_connection_keeps_replacement :
      (pool : AgentPool) (fresh : Handle) (stale j : Uuid)
      → stale ≢ (heap fresh).connection_id
      → let k = (heap fresh).machine_id in
        let now = (insert heap pool fresh).pool in
        (remove_if_connection heap now k stale ≡ record { pool = now; old = none })
        × (get (remove_if_connection heap now k (heap fresh).connection_id).pool j
            ≡ (if k == j then none else get pool j))
        × ((remove_if_connection heap now k (heap fresh).connection_id).old ≡ some fresh)
  unfolding remove_if_connection remove
  stale_connection_keeps_replacement pool fresh stale j ne =
      let k = (heap fresh).machine_id in
      let now = (insert heap pool fresh).pool in
      let found : get now k ≡ some fresh = ground (arith, get-insert pool fresh k) in
      ground (arith, found, get-without now k j, get-insert pool fresh j)
