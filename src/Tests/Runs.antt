-- ===== src/Tests/Runs.antt =====
-- Tests of the runs of a build.
use circus.Common.{
  Result, ℕ, ◌≡◌, ◌↔◌, ◌≤◌, refl, true, false, List, [], ◌∷◌, none, some, String, ok, err, In, All,
  ltb, leb,
}
use circus.Common.Int.{pos}
use circus.Common.Float.{whole_floats}
use circus.Models.BuildStatus.{pending, succeeded}
use circus.Models.Rows.{scheduling_features}
use circus.Rpc.Agent.{contains}
use circus.Dispatch.Caps.{RemoteBuilder, supports_required_features}
use circus.Dispatch.Select.{answered}
use circus.Dispatch.Venue.{VenueContext, any_builder, runner, under_pressure}
use circus.Builds.{mark_signed, mark_started_notified, start, get, complete}
use circus.Builds.Once.{IsExclusive}
use circus.Builds.Valid.{IsTimed}
use circus.Worker.{BuildResult, timed_out, RunAnswers}
use circus.Worker.Execute.{
  execute, run_on_runner, try_remote_build, ran, broke, is_skipped, try_builders,
}
use circus.Worker.Execute.Builders.{FirstToRun, RunsOn, try_builders-FirstToRun}
use circus.Worker.Features.{
  ensure_effective_features, with_required_floor, collect_set, insert_text,
}
use circus.Worker.Features.Floor.{builder_has_job_features}
use circus.Worker.Outputs.{push_to_cache, create_products, sign_outputs}
use circus.Worker.Outputs.Retries.{push_to_cache_iff}
use circus.Worker.Record.{uploads_fail, success_report, record_success, conclude, report}
use circus.Worker.Run.{settle, run_claimed, run_build}
use circus.Worker.Run.Verdict.{verdict, Lands}
use circus.Worker.Run.Refines.{settle-Lands}
use circus.Worker.Run.Effects.{notices}
use circus.Worker.Run.Notices.{due_by, settle-notices}
use circus.Worker.Run.Keeps.{run_build-IsSound}
use circus.Tests.Rows.{two_rows, statuses, two_rows-IsExclusive, two_rows-IsTimed}
use circus.Tests.{kvm_build, linux}

abbrev good : BuildResult
good = record {
  success = true;
  exit_code = some (pos 0);
  stdout = "";
  stderr = "";
  output_paths = "/nix/store/hello" ∷ [];
  cache_upload_handled = false;
}

abbrev bad : BuildResult
bad = record good { success = false; exit_code = some (pos 1); output_paths = [] }

abbrev pub replies : RunAnswers
replies = record {
  start_time = 2000;
  end_time = 5000;
  lock_free = true;
  row_unlocked = true;
  start_answers = true;
  notify_answers = true;
  requeue_answers = true;
  complete_answers = true;
  retry_answers = true;
  get_answers = true;
  products_answer = λ path. true;
  gc_root_of = λ i path. some "/gcroots/7";
  gc_root_answers = λ path. true;
  project_known = true;
  project_known_after = true;
  evaluation_known = true;
  agent_takes = true;
  agent_reply = some timed_out;
  drv_outputs = [];
  presigned_upload = false;
  permit_free = true;
  remote_run = λ b. ok good;
  local_run = err "no local build";
  meanwhile = λ t. t;
  log_storage = true;
  log_path_of = λ id. "/logs/7.log";
  live_log_exists = false;
  key_usable = true;
  sign_works = λ path. true;
  mark_answers = true;
  upload_enabled = true;
  store_uri = some "s3://cache";
  fail_build_on_upload_error = true;
  upload_max_retries = 2;
  push_works = λ path attempt. leb 1 attempt;
  size_saved = λ path. true;
  alerts_enabled = false;
}

kvm_build-found : get 7 two_rows ≡ some kvm_build
unfolding get
kvm_build-found = refl

settle-Lands_example :
    Lands replies kvm_build
      (verdict replies kvm_build (ran good))
      kvm_build
      (settle replies kvm_build (ran good) two_rows)
settle-Lands_example = settle-Lands replies kvm_build (ran good) two_rows kvm_build kvm_build-found

settle-notices_example :
    notices (settle replies kvm_build (broke "no disk") two_rows).effects
    ≡ due_by kvm_build replies
        (verdict replies kvm_build (broke "no disk"))
        (settle replies kvm_build (broke "no disk") two_rows).result
settle-notices_example = settle-notices kvm_build replies (broke "no disk") two_rows

abbrev ssh_builder : RemoteBuilder
ssh_builder = record {
  id = 31;
  ssh_uri = "ssh://builder";
  supported_features = "kvm" ∷ [];
  mandatory_features = [];
  public_host_key = some "key";
}

abbrev plain_builder : RemoteBuilder
plain_builder = record ssh_builder { id = 32; supported_features = [] }

abbrev venues : VenueContext ℕ
venues = record {
  above = λ a b. ltb b a;
  runner_caps = record { enabled = true; systems = linux ∷ []; features = [] };
  require_host_key = true;
  psi_threshold = some 50;
  pressure_of = λ uri. none;
  builders_for = λ system. answered (plain_builder ∷ ssh_builder ∷ []);
}

run_build-IsSound_example :
    IsExclusive (run_build replies kvm_build venues whole_floats (some runner) two_rows).table
    × All IsTimed (run_build replies kvm_build venues whole_floats (some runner) two_rows).table
run_build-IsSound_example =
    run_build-IsSound replies kvm_build venues whole_floats (some runner) two_rows (λ t h. h)
      (two_rows-IsExclusive, two_rows-IsTimed)

run_succeeds :
    statuses (run_build replies kvm_build venues whole_floats (some runner) two_rows).table
    ≡ succeeded ∷ pending ∷ []
unfolding run_build run_claimed execute run_on_runner try_remote_build try_builders is_skipped
    supports_required_features contains scheduling_features under_pressure settle record_success
    create_products conclude start complete mark_signed sign_outputs report get push_to_cache
    mark_started_notified uploads_fail success_report
run_succeeds = refl

try_builders-FirstToRun_example :
    ((try_builders venues replies kvm_build (plain_builder ∷ ssh_builder ∷ [])).outcome ≡ some good)
    ↔ FirstToRun venues replies kvm_build (plain_builder ∷ ssh_builder ∷ []) good
try_builders-FirstToRun_example =
    try_builders-FirstToRun venues replies kvm_build (plain_builder ∷ ssh_builder ∷ []) good

no_usable_builder : any_builder venues (scheduling_features kvm_build) (plain_builder ∷ []) ≡ false
unfolding any_builder supports_required_features scheduling_features contains
no_usable_builder = refl

abbrev hello : String
hello = "/nix/store/hello"

push_to_cache_iff_example :
    In hello (push_to_cache replies.push_works 0 (hello ∷ []))
    ↔ (In hello (hello ∷ []) × ((i : ℕ) → i ≤ 0 → replies.push_works hello i ≡ false))
push_to_cache_iff_example = push_to_cache_iff replies.push_works 0 (hello ∷ []) hello

abbrev pub late : BuildResult
late = record {
  success = false;
  exit_code = some (pos 124);
  stdout = "";
  stderr = "build timed out";
  output_paths = [];
  cache_upload_handled = false;
}

kvm_build-IsTimed : IsTimed kvm_build
unfolding IsTimed
kvm_build-IsTimed = (refl, refl)

abbrev computed : Result {0, 0} String (List String)
computed = ok ("big-parallel" ∷ [])

-- The builder has all that is computed.
abbrev big_builder : RemoteBuilder
big_builder = record ssh_builder { id = 33; supported_features = "big-parallel" ∷ "kvm" ∷ [] }

big_builder_runs :
    (try_builders venues replies
      (ensure_effective_features computed false kvm_build two_rows).build
      (ssh_builder ∷ big_builder ∷ [])).outcome
    ≡ some good
unfolding try_builders is_skipped ensure_effective_features with_required_floor collect_set
    insert_text supports_required_features scheduling_features contains under_pressure
big_builder_runs = refl

kvm_scheduled :
    (f : String) → In f kvm_build.required_features → In f (scheduling_features kvm_build)
unfolding scheduling_features
kvm_scheduled f i = i

builder_has_job_features_example :
    let ensured = (ensure_effective_features computed false kvm_build two_rows).build in
    (b : RemoteBuilder) × RunsOn venues replies ensured (ssh_builder ∷ big_builder ∷ []) b good
    × (replies.remote_run b ≡ ok good)
    × ((f : String) → In f kvm_build.required_features → In f b.supported_features)
builder_has_job_features_example =
    builder_has_job_features venues replies computed false kvm_build two_rows
      (ssh_builder ∷ big_builder ∷ []) good kvm_scheduled big_builder_runs
