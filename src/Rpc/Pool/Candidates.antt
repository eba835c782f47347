-- ===== src/Rpc/Pool/Candidates.antt =====
-- crates/queue-runner/src/rpc/pool.rs: the list that `candidates_for` returns.
use circus.Common.{
  ◌<◌, ◌≡◌, refl, true, ◌&&◌, String, arith, ltb, In, retain-In, In-retain, map-In, In-map,
  &&-eq-true, subst, sym,
}
use circus.Rpc.Agent.{Uuid, Handle, Heap, AgentSnapshot, contains, snapshot}
use circus.Rpc.Pool.{AgentPool, candidates_for}

module _ {F : Type 0} (heap : Heap F) (pool : AgentPool) (system : String) where
  -- An agent of the pool that advertises the system and has a free slot, with its snapshot.
  pub record IsCandidate (c : Handle × AgentSnapshot F) : Type 0 where
    pub key : Uuid
    pub registered : In (key, c.0) pool
    pub serves : contains (heap c.0).systems system ≡ true
    pub free : (heap c.0).current_jobs < (heap c.0).max_jobs
    pub taken : c.1 ≡ snapshot (heap c.0) (heap c.0).current_jobs

  entry-IsCandidate :
      (e : Uuid × Handle)
      → In e pool
      → (contains (heap e.1).systems system && ltb (heap e.1).current_jobs (heap e.1).max_jobs)
        ≡ true
      → IsCandidate (e.1, snapshot (heap e.1) (heap e.1).current_jobs)
  entry-IsCandidate (k, h) m test = record {
    key = k;
    registered = m;
    serves = ground arith;
    free = ground arith;
    taken = refl;
  }

  pub candidates_for-IsCandidate :
      (c : Handle × AgentSnapshot F) → In c (candidates_for heap pool system) → IsCandidate c
  unfolding candidates_for
  candidates_for-IsCandidate c m =
      let (e, kept, same) = map-In _ c _ m in
      let (registered, test) = retain-In _ e pool kept in
      subst IsCandidate (sym same) (entry-IsCandidate e registered test)

  pub IsCandidate-candidates_for :
      (c : Handle × AgentSnapshot F) → IsCandidate c → In c (candidates_for heap pool system)
  unfolding candidates_for
  IsCandidate-candidates_for (h, s) is =
      let free : ltb (heap h).current_jobs (heap h).max_jobs ≡ true =
        let lt = is.free in ground arith in
      subst (λ t. In (h, t) (candidates_for heap pool system)) (sym is.taken)
        (In-map (λ (e : Uuid × Handle). (e.1, snapshot (heap e.1) (heap e.1).current_jobs))
          (is.key, h) _
          (In-retain _ (is.key, h) pool is.registered
            ((&&-eq-true (contains (heap h).systems system) _).1 (is.serves, free))))
