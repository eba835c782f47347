-- ===== src/Dispatch/Venue/Choice.antt =====
-- crates/queue-runner/src/dispatch.rs: which venue `reserve_venue` settles on.
use circus.Common.{
  ◌≡◌, refl, ◌↔◌, ◌⊎◌, inl, inr, true, List, Option, none, some, String, arith, In, Bool-cases,
}
use circus.Common.Float.{Float32}
use circus.Models.Rows.{Build, scheduling_features}
use circus.Rpc.Agent.{Heap}
use circus.Rpc.Pool.{AgentPool}
use circus.Dispatch.Caps.{supports, RemoteBuilder}
use circus.Dispatch.Select.{Answer, answered, failed, Answers, SelectContext, Reserved}
use circus.Dispatch.Venue.Usable.{
  IsOpen, IsUsable, supports_iff, any_builder_sound, any_builder_complete,
}
use circus.Dispatch.Venue.{
  VenueContext, any_answered, ssh_for, runner_or_ssh, agent, runner, reserve_on_agent,
  reserve_venue,
}

module _ {D : Type 0} (ctx : VenueContext D) where
  -- An SSH builder for the named system may take the build.
  pub record IsReachable (features : List String) (system : Option String) : Type 0 where
    pub named : String
    pub known : system ≡ some named
    pub builders : List RemoteBuilder
    pub found : ctx.builders_for named ≡ answered builders
    pub builder : RemoteBuilder
    pub listed : In builder builders
    pub usable : IsUsable ctx features builder

  IsReachable-of_answer :
      (features : List String) (system : String) (answer : Answer (List RemoteBuilder))
      → ctx.builders_for system ≡ answer
      → any_answered ctx features answer ≡ true
      → IsReachable features (some system)
  IsReachable-of_answer features system (answered builders) e h =
      let (b, m, u) = any_builder_sound ctx features builders h in
      record {
        named = system;
        known = refl;
        builders = builders;
        found = e;
        builder = b;
        listed = m;
        usable = u;
      }
  IsReachable-of_answer features system failed e h = cc

  ssh_for-IsReachable :
      (features : List String) (system : Option String)
      → ssh_for ctx features system ≡ true
      → IsReachable features system
  ssh_for-IsReachable features none h = cc
  ssh_for-IsReachable features (some system) h =
      IsReachable-of_answer features system (ctx.builders_for system) refl h

  IsReachable-ssh_for :
      (features : List String) (system : Option String)
      → IsReachable features system
      → ssh_for ctx features system ≡ true
  IsReachable-ssh_for features system r =
      let any = any_builder_complete ctx features r.builders r.builder r.listed r.usable in
      rw r.known (rw r.found any)

  -- The runner takes the build itself or hands it to an SSH builder.
  pub runner_or_ssh_iff :
      (build : Build) (system : Option String)
      → (runner_or_ssh ctx build system ≡ true) ↔ (
          IsOpen ctx.runner_caps system (scheduling_features build)
          ⊎ IsReachable (scheduling_features build) system)
  unfolding runner_or_ssh
  runner_or_ssh_iff build system =
      let features = scheduling_features build in
      let own = supports_iff ctx.runner_caps system features in
      (
        λ h. elim (Bool-cases (supports ctx.runner_caps system features)) [
          | inl y ↦ inl (own.0 y)
          | inr n ↦ inr (ssh_for-IsReachable features system (ground (arith, n, h)))
        ],
        λ m. elim m [
          | inl o ↦ let y = own.1 o in ground (arith, y)
          | inr r ↦ let y = IsReachable-ssh_for features system r in ground (arith, y)
        ],
      )

-- Which venue the call settles on, for any system or none, and whatever the queries answer. It is an agent
-- exactly when that agent was reserved. It is the runner exactly when no agent was reserved and either the
-- runner host itself takes the build (it builds, serves the named system and has the features), or a
-- system is named, the query for its SSH builders is answered, and some builder of the answer has a pinned
-- host key where that is demanded, has the features, insists on none that the build lacks, and is not
-- known to be above the pressure threshold. It is none exactly when no agent was reserved and neither
-- holds.
pub reserve_venue_exact :
    (fl : Float32) {D : Type 0} (venue : VenueContext D) (ctx : SelectContext fl)
    (answers : Answers) (meanwhile : Heap fl.Carrier → Heap fl.Carrier) (heap : Heap fl.Carrier)
    (pool : AgentPool) (build : Build) (system : Option String) (r : Reserved fl)
    → let reserved = reserve_on_agent fl ctx answers meanwhile heap pool build system in
      let features = scheduling_features build in
      let outcome = reserve_venue fl venue ctx answers meanwhile heap pool build system in
      let admits = IsOpen venue.runner_caps system features ⊎ IsReachable venue features system in
      ((outcome ≡ some (agent r)) ↔ (reserved ≡ some r))
      × ((outcome ≡ some runner) ↔ ((reserved ≡ none) × admits))
      × ((outcome ≡ none) ↔ ((reserved ≡ none) × (admits → ⊥)))
unfolding reserve_venue
reserve_venue_exact fl venue ctx answers meanwhile heap pool build system r =
    ground (arith, runner_or_ssh_iff venue build system)
