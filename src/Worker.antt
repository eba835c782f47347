-- ===== src/Worker.antt =====
-- crates/queue-runner/src/worker.rs: how a dispatched build is run and its outcome recorded. The
-- answers of the database, of the processes and of the file system are arguments (`RunAnswers`); the
-- rows of `builds` are a table that the run updates; all else that it does is its list of effects.
pub mod Execute
pub mod Features
pub mod Outputs
pub mod Record
pub mod Run
use circus.Common.{ℕ, Bool, List, Option, String, Result}
use circus.Common.Int.{ℤ}
use circus.Models.BuildStatus.{BuildStatus}
use circus.Rpc.Agent.{Uuid}
use circus.Dispatch.Caps.{RemoteBuilder}
use circus.Dispatch.Select.{Answer}
use circus.Builds.{Table}

-- `builder::BuildResult`.
pub record BuildResult : Type 0 where
  pub success : Bool
  pub exit_code : Option ℤ
  pub stdout : String
  pub stderr : String
  pub output_paths : List String
  pub cache_upload_handled : Bool

-- rpc/pool.rs, `DispatchResult`.
pub data DispatchResult : Type 0 where
  succeeded_with : Option String → DispatchResult
  failed_with : String → DispatchResult
  timed_out : DispatchResult
  was_aborted : DispatchResult
  oom_killed_with : String → DispatchResult
  disconnected : DispatchResult

pub data Effect : Type 0 where
  notify_started : Uuid → Effect
  -- `builder_sessions::touch` and `builds::set_agent`, by machine.
  touch_session : Uuid → Effect
  set_agent : Uuid → Uuid → Effect
  -- `builds::set_builder`, `record_success` and `record_failure` of an SSH builder.
  set_builder : Uuid → Uuid → Effect
  record_success : Uuid → Effect
  record_failure : Uuid → Effect
  -- The live log is removed, renamed to the final one, or the log is written anew.
  remove_live_log : Uuid → Effect
  rename_live_log : Uuid → Effect
  write_log : Uuid → String → String → Effect
  -- `build_outputs::create` and `build_products::create`, by name and path; the GC root of a path.
  create_output : Uuid → String → String → Effect
  register_root : Uuid → String → Effect
  create_product : Uuid → String → String → Effect
  set_gc_root : Uuid → String → String → Effect
  sign_path : String → Effect
  persist_narinfos : Uuid → List String → Effect
  push_paths : String → List String → Effect
  -- `collect_metrics_and_alert`: the duration, the size of an output, the check for an alert.
  save_duration : Uuid → ℤ → Effect
  save_output_size : Uuid → Effect
  check_alert : Uuid → Effect
  -- `failed_paths_cache::insert`.
  cache_failed_path : String → BuildStatus → Uuid → Effect
  notify_finished : Uuid → Effect
  -- `auto_promote_if_complete`, by evaluation.
  promote_channels : Uuid → Effect

pub data RunError : Type 0 where
  database_failed : RunError
  build_not_found : Uuid → RunError

pub record RunAnswers : Type 0 where
  -- `NOW()` when the build starts and when its outcome is recorded.
  pub start_time : ℕ
  pub end_time : ℕ
  -- Whether the advisory lock of the derivation and the row of the build are free; whether each query of the run reaches the database.
  pub lock_free : Bool
  pub row_unlocked : Bool
  pub start_answers : Bool
  pub notify_answers : Bool
  pub requeue_answers : Bool
  pub complete_answers : Bool
  pub retry_answers : Bool
  pub get_answers : Bool
  pub products_answer : String → Bool
  -- `GcRoots::register`, by the index of the output, and `set_gc_root_path`.
  pub gc_root_of : ℕ → String → Option String
  pub gc_root_answers : String → Bool
  -- `get_project_for_build` at the start and at the end, and the read of the evaluation.
  pub project_known : Bool
  pub project_known_after : Bool
  pub evaluation_known : Bool
  -- The agent: whether its channel takes the command, and what comes back, if anything does.
  pub agent_takes : Bool
  pub agent_reply : Option DispatchResult
  pub drv_outputs : List String
  pub presigned_upload : Bool
  -- `try_acquire_owned`, the SSH builders and the local build.
  pub permit_free : Bool
  pub remote_run : RemoteBuilder → Result String BuildResult
  pub local_run : Result String BuildResult
  -- What other tasks and users do to the table while the build runs.
  pub meanwhile : Table → Table
  pub log_storage : Bool
  pub log_path_of : Uuid → String
  pub live_log_exists : Bool
  -- `sign_outputs`: whether signing is enabled with a key file that exists, and `nix store sign`.
  pub key_usable : Bool
  pub sign_works : String → Bool
  pub mark_answers : Bool
  pub upload_enabled : Bool
  pub store_uri : Option String
  pub fail_build_on_upload_error : Bool
  pub upload_max_retries : ℕ
  -- `nix copy` of a path, by attempt.
  pub push_works : String → ℕ → Bool
  -- Whether the size of an output is read and saved.
  pub size_saved : String → Bool
  pub alerts_enabled : Bool
