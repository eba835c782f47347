-- ===== src/Dispatch/Select/Eligible.antt =====
-- crates/queue-runner/src/dispatch.rs: which candidates the filters of `select_and_reserve_agent` keep.
use circus.Common.{
  ◌≡◌, true, false, Bool-cases, inl, inr, List, [], ◌∷◌, In, All, In-retain, retain-In, retain,
  retain-All, any-eq-false, any, subst, sym,
}
use circus.Common.Float.{Float32}
use circus.Models.Rows.{Build, scheduling_features}
use circus.Rpc.Agent.{supports_features, requires_trusted_ref}
use circus.Dispatch.Trust.{candidate_allowed_for_trusted_build}
use circus.Dispatch.Select.{
  Answers, SelectContext, Candidate, passes_pressure, is_yes, trust_filter, eligible_agents,
}

module _ (fl : Float32) (ctx : SelectContext fl) (answers : Answers) (build : Build) where
  -- What the code asks of an agent before it is ranked.
  pub record IsEligible (c : Candidate fl) : Type 0 where
    pub calm : passes_pressure fl ctx c.1 ≡ true
    pub able : supports_features c.1 (scheduling_features build) ≡ true
    pub trusted :
        candidate_allowed_for_trusted_build c.1 (answers.trusted_build_context build) ≡ true
    pub schedulable : is_yes (answers.is_schedulable c.1.machine_id) ≡ true

  allowed_untrusted :
      (c : Candidate fl)
      → requires_trusted_ref c.1 ≡ false
      → candidate_allowed_for_trusted_build c.1 (answers.trusted_build_context build) ≡ true
  unfolding candidate_allowed_for_trusted_build
  allowed_untrusted c h = rw h

  All-allowed :
      (cs : List (Candidate fl))
      → All (λ c. requires_trusted_ref c.1 ≡ false) cs
      → All
          (λ c.
            candidate_allowed_for_trusted_build c.1 (answers.trusted_build_context build) ≡ true)
          cs
  All-allowed [] h = tt
  All-allowed (c ∷ cs) (h, hs) = (allowed_untrusted c h, All-allowed cs hs)

  -- Skipping the trusted-ref filter where no candidate needs it drops the same candidates.
  trust_filter-eq :
      (cs : List (Candidate fl))
      → trust_filter fl ctx answers build cs
        ≡ retain
            (λ c. candidate_allowed_for_trusted_build c.1 (answers.trusted_build_context build))
            cs
  unfolding trust_filter
  trust_filter-eq cs = elim (Bool-cases (any (λ c. requires_trusted_ref c.1) cs)) [
    | inl e ↦ rw e
    | inr e ↦ rw e (sym (retain-All _ cs (All-allowed cs (any-eq-false _ cs e))))
  ]

  pub eligible_agents-IsEligible :
      (c : Candidate fl) (cs : List (Candidate fl))
      → In c (eligible_agents fl ctx answers build cs)
      → In c cs × IsEligible c
  unfolding eligible_agents
  eligible_agents-IsEligible c cs m =
      let (m1, schedulable) = retain-In _ c _ m in
      let (m2, trusted) = retain-In _ c _ (subst (In c) (trust_filter-eq _) m1) in
      let (m3, able) = retain-In _ c _ m2 in
      let (m4, calm) = retain-In _ c cs m3 in
      (m4, record { calm = calm; able = able; trusted = trusted; schedulable = schedulable })

  pub IsEligible-eligible_agents :
      (c : Candidate fl) (cs : List (Candidate fl))
      → In c cs
      → IsEligible c
      → In c (eligible_agents fl ctx answers build cs)
  unfolding eligible_agents
  IsEligible-eligible_agents c cs m h =
      let kept = In-retain _ c _ (In-retain _ c cs m h.calm) h.able in
      In-retain _ c _ (subst (In c) (sym (trust_filter-eq _)) (In-retain _ c _ kept h.trusted))
        h.schedulable
