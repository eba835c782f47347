-- ===== src/Dispatch/Venue.antt =====
-- crates/queue-runner/src/dispatch.rs, `reserve_venue`, and psi.rs, `PsiSnapshot::exceeds`. The
-- readings over SSH, cached or fresh, are answers; `f64` and its cast are parameters as `f32` is.
pub mod Usable
pub mod Choice
use circus.Common.{
  Bool, true, false, not, ◌&&◌, ◌||◌, List, [], ◌∷◌, Option, none, some, String, if◌then◌else◌, any,
}
use circus.Common.Float.{Float32}
use circus.Models.Rows.{Build, scheduling_features}
use circus.Rpc.Agent.{Heap}
use circus.Rpc.Pool.{AgentPool}
use circus.Dispatch.Caps.{RunnerCaps, supports, supports_required_features, RemoteBuilder}
use circus.Dispatch.Select.{
  Answer, answered, failed, Answers, SelectContext, Reserved, select_and_reserve_agent,
}

pub record PsiSnapshot (D : Type 0) : Type 0 where
  pub cpu_avg10 : D
  pub memory_avg10 : D
  pub io_avg10 : D

-- `a > b` on `f64`.
unfoldable pub exceeds : {D : Type 0} → (D → D → Bool) → PsiSnapshot D → D → Bool
exceeds above snap t = above snap.cpu_avg10 t || above snap.memory_avg10 t || above snap.io_avg10 t

pub record VenueContext (D : Type 0) : Type 0 where
  pub above : D → D → Bool
  pub runner_caps : RunnerCaps
  pub require_host_key : Bool
  pub psi_threshold : Option D
  -- `psi::read_cached`.
  pub pressure_of : String → Option (PsiSnapshot D)
  -- `repo::remote_builders::find_for_system`.
  pub builders_for : String → Answer (List RemoteBuilder)

abbrev pub is_none {ℓ} : {A : Type ℓ} → Option A → Bool
is_none none = true
is_none (some a) = false

module _ {D : Type 0} (ctx : VenueContext D) where
  -- The third `continue` of the loop over the builders.
  unfoldable pub under_pressure : RemoteBuilder → Bool
  under_pressure b = elim ctx.psi_threshold [
    | none ↦ false
    | some t ↦ elim (ctx.pressure_of b.ssh_uri) [
      | none ↦ false
      | some snap ↦ exceeds ctx.above snap t
    ]
  ]

  -- The loop stops at the first builder that no `continue` passes over.
  unfoldable pub any_builder : List String → List RemoteBuilder → Bool
  any_builder features [] = false
  any_builder features (b ∷ builders) =
      let rest = any_builder features builders in
      if ctx.require_host_key && is_none b.public_host_key
      then rest
      else if not (supports_required_features features b.supported_features b.mandatory_features)
      then rest
      else if under_pressure b
      then rest
      else true

  abbrev pub any_answered : List String → Answer (List RemoteBuilder) → Bool
  any_answered features (answered builders) = any_builder features builders
  any_answered features failed = false

  abbrev pub ssh_for : List String → Option String → Bool
  ssh_for features none = false
  ssh_for features (some system) = any_answered features (ctx.builders_for system)

  -- `runner_ok || ssh_ok`: the builders are looked at only if the runner does not qualify.
  unfoldable pub runner_or_ssh : Build → Option String → Bool
  runner_or_ssh build system =
      let features = scheduling_features build in
      let ssh = ssh_for features system in
      if supports ctx.runner_caps system features then true else ssh

-- `ExecutionReservation`; the permit of the worker semaphore, for which the code waits, has no content.
pub data ExecutionReservation (fl : Float32) : Type 0 where
  agent : Reserved fl → ExecutionReservation fl
  runner : ExecutionReservation fl

module _ (fl : Float32) where
  unfoldable pub reserve_on_agent :
      SelectContext fl
      → Answers
      → (Heap fl.Carrier → Heap fl.Carrier)
      → Heap fl.Carrier
      → AgentPool
      → Build
      → Option String
      → Option (Reserved fl)
  reserve_on_agent ctx answers meanwhile heap pool build none = none
  reserve_on_agent ctx answers meanwhile heap pool build (some system) =
      select_and_reserve_agent fl ctx answers meanwhile heap pool build system

  unfoldable pub reserve_venue :
      {D : Type 0}
      → VenueContext D
      → SelectContext fl
      → Answers
      → (Heap fl.Carrier → Heap fl.Carrier)
      → Heap fl.Carrier
      → AgentPool
      → Build
      → Option String
      → Option (ExecutionReservation fl)
  reserve_venue venue ctx answers meanwhile heap pool build system =
      elim (reserve_on_agent ctx answers meanwhile heap pool build system) [
        | some r ↦ some (agent r)
        | none ↦ if runner_or_ssh venue build system then some runner else none
      ]
