-- ===== src/Rpc/Agent.antt =====
-- crates/queue-runner/src/rpc/pool.rs: the metadata of a connected agent. It is shared
-- (`Arc<AgentMeta>`): the pool, the dispatch commands and the slot guards hold handles into one heap,
-- so a guard of an agent that has been replaced acts on the old entry and not on the new one.
pub mod Features
use circus.Common.{
  ℕ, ◌+◌, ◌-◌, ◌%◌, Bool, true, false, ◌&&◌, not, List, Option, none, some, String, str_eq, leb,
  ◌==◌, if◌then◌else◌, any, all, retain, length,
}
use circus.Types.AuthKind.{AuthKind, token, oidc}
use circus.Rpc.Slots.{u32_mod}

-- `Uuid`, compared as the number that its 128 bits spell; an `Instant` in milliseconds.
abbrev pub Uuid : Type 0
Uuid = ℕ

abbrev pub Instant : Type 0
Instant = ℕ

abbrev pub max_u32 : ℕ
max_u32 = u32_mod - 1

pub record HeartbeatSnapshot (F : Type 0) : Type 0 where
  pub last_seen : Option Instant
  pub load1 : F
  pub load5 : F
  pub load15 : F
  pub cpu_psi_avg10 : F
  pub mem_psi_avg10 : F
  pub io_psi_avg10 : F

pub record AgentMeta (F : Type 0) : Type 0 where
  pub machine_id : Uuid
  pub connection_id : Uuid
  pub name : String
  pub hostname : String
  pub systems : List String
  pub supported_features : List String
  pub mandatory_features : List String
  pub speed_factor : F
  pub cpu_count : ℕ
  pub max_jobs : ℕ
  pub ephemeral : Bool
  pub auth_kind : AuthKind
  pub oidc_repository : Option String
  pub oidc_subject : Option String
  pub current_jobs : ℕ
  pub active_builds : List Uuid
  pub heartbeat : HeartbeatSnapshot F

pub record AgentSnapshot (F : Type 0) : Type 0 where
  pub machine_id : Uuid
  pub name : String
  pub systems : List String
  pub supported_features : List String
  pub mandatory_features : List String
  pub speed_factor : F
  pub cpu_count : ℕ
  pub max_jobs : ℕ
  pub current_jobs : ℕ
  pub ephemeral : Bool
  pub auth_kind : AuthKind
  pub oidc_repository : Option String
  pub oidc_subject : Option String
  pub heartbeat : HeartbeatSnapshot F

abbrev pub Handle : Type 0
Handle = ℕ

abbrev pub Heap : Type 0 → Type 0
Heap F = Handle → AgentMeta F

-- `contains` on a list of features.
unfoldable pub contains : List String → String → Bool
contains xs s = any (λ x. str_eq x s) xs

abbrev pub write : {F : Type 0} → Heap F → Handle → AgentMeta F → Heap F
write heap h m j = if h == j then m else heap j

abbrev pub with_jobs : {F : Type 0} → AgentMeta F → ℕ → AgentMeta F
with_jobs m n = record m { current_jobs = n }

module _ {F : Type 0} where
  -- `try_acquire_slot` where no other task touches the counter meanwhile; `Slots` has the loop. The
  -- guard that it returns is the handle.
  unfoldable pub try_acquire_slot : Handle → Heap F → Option (Heap F)
  try_acquire_slot h heap =
      let m = heap h in
      if leb m.max_jobs m.current_jobs
      then none
      else some (write heap h (with_jobs m ((m.current_jobs + 1) % u32_mod)))

  -- `Drop` of a `SlotGuard`.
  unfoldable pub drop_guard : Handle → Heap F → Heap F
  drop_guard h heap =
      let m = heap h in write heap h (with_jobs m ((m.current_jobs + u32_mod - 1) % u32_mod))

  unfoldable pub snapshot : AgentMeta F → ℕ → AgentSnapshot F
  snapshot m current_jobs = record {
    machine_id = m.machine_id;
    name = m.name;
    systems = m.systems;
    supported_features = m.supported_features;
    mandatory_features = m.mandatory_features;
    speed_factor = m.speed_factor;
    cpu_count = m.cpu_count;
    max_jobs = m.max_jobs;
    current_jobs = current_jobs;
    ephemeral = m.ephemeral;
    auth_kind = m.auth_kind;
    oidc_repository = m.oidc_repository;
    oidc_subject = m.oidc_subject;
    heartbeat = m.heartbeat;
  }

  unfoldable pub supports_features : AgentSnapshot F → List String → Bool
  supports_features snap required =
      all (contains snap.supported_features) required
      && all (contains required) snap.mandatory_features

  unfoldable pub contended_surplus : AgentSnapshot F → List String → List String → ℕ
  contended_surplus snap required demand = length (
      retain (λ feature. contains demand feature && not (contains required feature))
        snap.supported_features)

  unfoldable pub requires_trusted_ref : AgentSnapshot F → Bool
  requires_trusted_ref snap = elim snap.auth_kind [ token ↦ false | oidc ↦ true ]
