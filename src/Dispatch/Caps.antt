-- ===== src/Dispatch/Caps.antt =====
-- crates/queue-runner/src/caps.rs and dispatch.rs, `supports_required_features`: what the runner host
-- and the SSH builders can execute.
use circus.Common.{Bool, true, ◌&&◌, List, Option, none, some, String, all}
use circus.Rpc.Agent.{Uuid, contains}

pub record RunnerCaps : Type 0 where
  pub enabled : Bool
  pub systems : List String
  pub features : List String

-- `system.is_none_or(|s| …)`.
abbrev pub serves : List String → Option String → Bool
serves systems none = true
serves systems (some s) = contains systems s

unfoldable pub supports : RunnerCaps → Option String → List String → Bool
supports caps system features =
    caps.enabled && serves caps.systems system && all (contains caps.features) features

unfoldable pub supports_required_features : List String → List String → List String → Bool
supports_required_features required supported mandatory =
    all (contains supported) required && all (contains required) mandatory

-- The columns of `remote_builders` that dispatch reads.
pub record RemoteBuilder : Type 0 where
  pub id : Uuid
  pub ssh_uri : String
  pub supported_features : List String
  pub mandatory_features : List String
  pub public_host_key : Option String
