-- ===== src/Rpc/Agent/Features.antt =====
-- crates/queue-runner/src/rpc/pool.rs: what `supports_features` and `contended_surplus` decide.
use circus.Common.{
  ◌≤◌, ◌≡◌, refl, ◌↔◌, inl, inr, true, false, ◌&&◌, not, List, [], ◌∷◌, String, eq_iff, arith, all,
  In, All, retain, length, length-retain, &&-eq-true, Bool-cases,
}
use circus.Rpc.Agent.{AgentSnapshot, contains, supports_features, contended_surplus}

contains_sound : (xs : List String) (s : String) → contains xs s ≡ true → In s xs
unfolding contains
contains_sound [] s h = cc
contains_sound (x ∷ xs) s h = ground (arith, eq_iff x s, contains_sound xs s)

contains_complete : (xs : List String) (s : String) → In s xs → contains xs s ≡ true
unfolding contains
contains_complete [] s h = absurd h
contains_complete (x ∷ xs) s (inl e) = ground (arith, eq_iff x s)
contains_complete (x ∷ xs) s (inr m) = ground (arith, contains_complete xs s m)

-- `contains` decides membership.
pub contains_iff : (xs : List String) (s : String) → (contains xs s ≡ true) ↔ In s xs
contains_iff xs s = (contains_sound xs s, contains_complete xs s)

-- Every item of the first list stands in the second.
abbrev pub Within : List String → List String → Type 0
Within [] ys = Unit
Within (x ∷ xs) ys = In x ys × Within xs ys

all-Within : (xs ys : List String) → (all (contains ys) xs ≡ true) ↔ Within xs ys
all-Within [] ys = (λ h. tt, λ h. refl)
all-Within (x ∷ xs) ys = (
  λ h.
      let (here, rest) = (&&-eq-true (contains ys x) (all (contains ys) xs)).0 h in
      ((contains_iff ys x).0 here, (all-Within xs ys).0 rest),
  λ (here, rest).
      (&&-eq-true (contains ys x) (all (contains ys) xs)).1
        ((contains_iff ys x).1 here, (all-Within xs ys).1 rest),
)

module _ {F : Type 0} (agent : AgentSnapshot F) (required : List String) where
  -- An agent supports a build's features exactly when each required feature is among the agent's
  -- supported ones and each mandatory feature of the agent is among the required ones.
  supports_features_exact :
      (supports_features agent required ≡ true)
      ↔ (Within required agent.supported_features × Within agent.mandatory_features required)
  unfolding supports_features
  supports_features_exact =
      let supported = all-Within required agent.supported_features in
      let mandatory = all-Within agent.mandatory_features required in
      let both =
        &&-eq-true (all (contains agent.supported_features) required)
          (all (contains required) agent.mandatory_features) in
      (
        λ h. let (a, b) = both.0 h in (supported.0 a, mandatory.0 b),
        λ (a, b). both.1 (supported.1 a, mandatory.1 b),
      )

-- A feature is wasted on a build if queued work demands it and the build does not require it.
abbrev Wasted : List String → List String → String → Type 0
Wasted required demand f = In f demand × (¬ (In f required))

Wasted-sound :
    (required demand : List String) (f : String)
    → (contains demand f && not (contains required f)) ≡ true
    → Wasted required demand f
Wasted-sound required demand f h =
    let (d, r) = (&&-eq-true (contains demand f) (not (contains required f))).0 h in
    ((contains_iff demand f).0 d, λ m. ground (arith, (contains_iff required f).1 m))

Wasted-complete :
    (required demand : List String) (f : String)
    → (contains demand f && not (contains required f)) ≡ false
    → ¬ (Wasted required demand f)
Wasted-complete required demand f h (d, r) = elim (Bool-cases (contains required f)) [
  | inl e ↦ r ((contains_iff required f).0 e)
  | inr e ↦ ground (arith, (contains_iff demand f).1 d)
]

-- No feature of the list is wasted.
abbrev pub Spared : List String → List String → List String → Type 0
Spared required demand = All (λ f. ¬ (Wasted required demand f))

Spared-iff :
    (required demand fs : List String)
    → (length (retain (λ f. contains demand f && not (contains required f)) fs) ≡ 0)
      ↔ Spared required demand fs
Spared-iff required demand [] = (λ h. tt, λ h. refl)
Spared-iff required demand (f ∷ fs) =
    elim (Bool-cases (contains demand f && not (contains required f))) [
      | inl e ↦
          rw e (λ h. absurd (omega arith), λ h. absurd (h.0 (Wasted-sound required demand f e)))
      | inr e ↦
          let (sound, complete) = Spared-iff required demand fs in
          rw e (λ h. (Wasted-complete required demand f e, sound h), λ h. complete h.1)
    ]

-- The surplus by which builders are ranked is never more than the number of the agent's features,
-- and it is 0 exactly when none of them is demanded by queued work that this build leaves unused.
contended_surplus_exact :
    {F : Type 0} (agent : AgentSnapshot F) (required demand : List String)
    → (contended_surplus agent required demand ≤ length agent.supported_features)
      × ((contended_surplus agent required demand ≡ 0)
          ↔ Spared required demand agent.supported_features)
unfolding contended_surplus
contended_surplus_exact agent required demand = (
  length-retain (λ f. contains demand f && not (contains required f)) agent.supported_features,
  Spared-iff required demand agent.supported_features,
)
