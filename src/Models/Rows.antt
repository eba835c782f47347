-- ===== src/Models/Rows.antt =====
-- crates/common/src/models.rs: the columns of `builds`, `evaluations` and `jobsets` that the queue
-- runner reads. The other columns take no part in what is modelled.
use circus.Common.{ℕ, Bool, List, Option, none, some, String}
use circus.Rpc.Agent.{Uuid}
use circus.Models.BuildStatus.{BuildStatus}
use circus.Models.EvaluationTriggerKind.{EvaluationTriggerKind}
use circus.Models.JobsetState.{JobsetState}
use circus.Models.JobsetTriggerMode.{JobsetTriggerMode}

-- Times are in milliseconds. `outputs` is the JSON object, if it is one, with the values that are texts;
-- `started_notified` says that the column `started_notified_at`, which only the queries read, is set.
pub record Build : Type 0 where
  pub id : Uuid
  pub evaluation_id : Uuid
  pub job_name : String
  pub drv_path : String
  pub status : BuildStatus
  pub started_at : Option ℕ
  pub completed_at : Option ℕ
  pub log_path : Option String
  pub build_output_path : Option String
  pub error_message : Option String
  pub system : Option String
  pub retry_count : ℕ
  pub max_retries : ℕ
  pub created_at : ℕ
  pub outputs : Option (List (String × Option String))
  pub is_aggregate : Bool
  pub is_fod : Bool
  pub required_features : List String
  pub effective_features : Option (List String)
  pub signed : Bool
  pub started_notified : Bool

-- The effective features once they are computed, else the features of the job itself.
unfoldable pub scheduling_features : Build → List String
scheduling_features b = elim b.effective_features [ some fs ↦ fs | none ↦ b.required_features ]

pub record Evaluation : Type 0 where
  pub id : Uuid
  pub jobset_id : Uuid
  pub trigger_kind : EvaluationTriggerKind
  pub pr_number : Option ℕ
  pub pr_head_branch : Option String
  pub pr_base_branch : Option String

pub record Jobset : Type 0 where
  pub id : Uuid
  pub project_id : Uuid
  pub name : String
  pub trigger_mode : JobsetTriggerMode
  pub branch : Option String
  pub state : JobsetState
