-- ===== src/Dispatch/Trust/Policy.antt =====
-- crates/queue-runner/src/dispatch.rs: the two halves of the trusted-ref rule, on their own terms.
use circus.Common.{
  ◌≡◌, ◌≢◌, ◌↔◌, ◌⊎◌, inl, inr, true, Option, none, some, String, eq_iff, arith, Option-cases,
  some_inj, refl, sym, subst,
}
use circus.Types.AuthKind.{AuthKind, token, oidc}
use circus.Models.Rows.{Evaluation, Jobset}
use circus.Rpc.Agent.{AgentSnapshot, requires_trusted_ref}
use circus.Dispatch.Trust.{
  is_trusted_ref_evaluation, TrustedBuildContext, candidate_allowed_for_trusted_build,
  repository_matches,
}

-- The evaluation comes from a named branch of the jobset, and not from a pull request.
pub record IsFromBranch (evaluation : Evaluation) (jobset : Jobset) : Type 0 where
  pub named : (branch : String) × (jobset.branch ≡ some branch) × (branch ≢ "")
  pub no_number : evaluation.pr_number ≡ none
  pub no_head : evaluation.pr_head_branch ≡ none
  pub no_base : evaluation.pr_base_branch ≡ none

trusted_sound :
    (evaluation : Evaluation) (jobset : Jobset)
    → is_trusted_ref_evaluation evaluation jobset ≡ true
    → IsFromBranch evaluation jobset
unfolding is_trusted_ref_evaluation
trusted_sound evaluation jobset h = elim (Option-cases jobset.branch) [
  | inl none_named ↦ ground (arith, h, none_named)
  | inr (branch, e) ↦ record {
    named = (branch, e, λ empty. ground (arith, h, e, eq_iff branch "", empty));
    no_number = ground (arith, h);
    no_head = ground (arith, h);
    no_base = ground (arith, h);
  }
]

trusted_complete :
    (evaluation : Evaluation) (jobset : Jobset)
    → IsFromBranch evaluation jobset
    → is_trusted_ref_evaluation evaluation jobset ≡ true
unfolding is_trusted_ref_evaluation
trusted_complete evaluation jobset f =
    let (branch, e, ne) = f.named in
    ground (arith, eq_iff branch "", e, ne, f.no_number, f.no_head, f.no_base)

-- An evaluation counts as one of a trusted ref exactly when its jobset names a branch, by a text that
-- is not empty, and none of the three pull request columns is set.
is_trusted_ref_evaluation_iff :
    (evaluation : Evaluation) (jobset : Jobset)
    → (is_trusted_ref_evaluation evaluation jobset ≡ true) ↔ IsFromBranch evaluation jobset
is_trusted_ref_evaluation_iff evaluation jobset =
    (trusted_sound evaluation jobset, trusted_complete evaluation jobset)

repository_matches_iff :
    (claimed actual : Option String)
    → (repository_matches claimed actual ≡ true)
      ↔ ((claimed ≡ none) ⊎ ((repo : String) × (claimed ≡ some repo) × (actual ≡ some repo)))
repository_matches_iff none actual = ground arith
repository_matches_iff (some repo) none = ground arith
repository_matches_iff (some repo) (some actual) = ground (arith, eq_iff actual repo)

AuthKind-cases : (k : AuthKind) → (k ≡ token) ⊎ (k ≡ oidc)
AuthKind-cases token = inl refl
AuthKind-cases oidc = inr refl

-- The repository that the agent's token names, if it names one, is the one of the build.
abbrev pub Claims : {F : Type 0} → AgentSnapshot F → TrustedBuildContext → Type 0
Claims agent t =
    (agent.oidc_repository ≡ none)
    ⊎ ((repo : String) × (agent.oidc_repository ≡ some repo) × (t.repository ≡ some repo))

-- An agent may take a build exactly when it authenticated with a token, or the build is of a trusted
-- ref and the repository that the agent's OIDC token names, if it names one, is the build's.
candidate_allowed_iff :
    {F : Type 0} (agent : AgentSnapshot F) (trusted : Option TrustedBuildContext)
    → (candidate_allowed_for_trusted_build agent trusted ≡ true) ↔ (
        (agent.auth_kind ≡ token)
        ⊎ ((t : TrustedBuildContext) × (trusted ≡ some t) × Claims agent t))
unfolding candidate_allowed_for_trusted_build requires_trusted_ref
candidate_allowed_iff agent none = ground arith
candidate_allowed_iff agent (some t) =
    let (sound, complete) = repository_matches_iff agent.oidc_repository t.repository in
    elim (AuthKind-cases agent.auth_kind) [
      | inl e ↦ (λ h. inl e, λ h. ground (arith, e))
      | inr e ↦ (
        λ h. inr (t, refl, sound (ground (arith, e, h))),
        λ h. elim h [
          | inl e' ↦ ground (arith, e, e')
          | inr (t', same, claim) ↦
              let c = complete (subst (Claims agent) (sym (some_inj same)) claim) in
              ground (arith, e, c)
        ],
      )
    ]
