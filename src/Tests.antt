-- ===== src/Tests.antt =====
-- Sample data of the tests, and the modules of tests for the parts of the program.
mod Enums
mod Pool
mod Selection
mod Loop
mod Sinks
mod Rows
mod Starts
mod Runs
mod Sessions
mod Cascades
mod Evaluations
mod Uploads
mod Inputs
use circus.Common.{ℕ, false, List, [], ◌∷◌, none, some, ◌==◌, if◌then◌else◌, String}
use circus.Types.AuthKind.{token}
use circus.Rpc.Agent.{AgentMeta, Heap}
use circus.Rpc.Pool.{AgentPool}
use circus.Models.BuildStatus.{pending}
use circus.Models.Rows.{Build}

abbrev pub linux : String
linux = "x86_64-linux"

-- An agent with one connection, four slots at most, and some of them taken.
abbrev pub agent_with : ℕ → ℕ → List String → ℕ → AgentMeta ℕ
agent_with machine connection features jobs = record {
  machine_id = machine;
  connection_id = connection;
  name = "agent";
  hostname = "host";
  systems = linux ∷ [];
  supported_features = features;
  mandatory_features = [];
  speed_factor = 1;
  cpu_count = 8;
  max_jobs = 4;
  ephemeral = false;
  auth_kind = token;
  oidc_repository = none;
  oidc_subject = none;
  current_jobs = jobs;
  active_builds = [];
  heartbeat = record {
    last_seen = some 90;
    load1 = 0;
    load5 = 0;
    load15 = 0;
    cpu_psi_avg10 = 10;
    mem_psi_avg10 = 0;
    io_psi_avg10 = 0;
  };
}

-- Agent 1 is big, agent 2 plain; entry 3 is agent 1 under a new connection; the others are full.
abbrev pub agents : Heap ℕ
agents h =
    if h == 1
    then agent_with 1 11 ("kvm" ∷ "big-parallel" ∷ []) 1
    else if h == 2
    then agent_with 2 12 ("kvm" ∷ []) 0
    else if h == 3
    then agent_with 1 13 ("kvm" ∷ []) 0
    else agent_with h h [] 4

abbrev pub two_agents : AgentPool
two_agents = (1, 1) ∷ (2, 2) ∷ []

abbrev pub kvm_build : Build
kvm_build = record {
  id = 7;
  evaluation_id = 70;
  job_name = "hello";
  drv_path = "/nix/store/hello.drv";
  status = pending;
  started_at = none;
  completed_at = none;
  log_path = none;
  build_output_path = none;
  error_message = none;
  retry_count = 0;
  max_retries = 3;
  outputs = some (("out", some "/nix/store/hello") ∷ []);
  signed = false;
  started_notified = false;
  system = some linux;
  created_at = 1000;
  is_aggregate = false;
  is_fod = false;
  required_features = "kvm" ∷ [];
  effective_features = none;
}
