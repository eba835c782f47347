-- ===== src/Builds/Cascade.antt =====
-- crates/common/src/repo/builds.rs, `cancel_cascade`: a build is cancelled with all that depend on it.
pub mod Ends
pub mod Closed
use circus.Common.{ℕ, zero, suc, ◌+◌, Bool, List, [], ◌∷◌, ◌++◌, Option, none, some, if◌then◌else◌}
use circus.Models.Rows.{Build}
use circus.Rpc.Agent.{Uuid}
use circus.Dispatch.Select.{Answer, answered, failed}
use circus.Builds.{Table, is_cancellable, cancel, count_where}

-- The table, the stack `to_cancel` with its top first, and the builds that were cancelled so far.
pub record Progress : Type 0 where
  pub table : Table
  pub to_cancel : List Uuid
  pub cancelled : List Build

-- The cancelled builds, or the error of `cancel_cascade_dependents`, with the table as it is then.
pub data Cascaded : Type 0 where
  finished : Table → List Build → Cascaded
  broken : Table → Cascaded
  out_of_fuel : Cascaded

abbrev pub cancellable_rows : Table → ℕ
cancellable_rows = count_where (λ r. is_cancellable r.status)

-- `dependents_of` answers the query for dependents; `reaches` says whether `cancel` reaches the database.
module _ (now : ℕ) (dependents_of : Uuid → Answer (List Uuid)) (reaches : Uuid → Bool) where
  -- The body of the inner loop, and `cancel` of the target, which pushes nothing.
  unfoldable pub cancel_one : Uuid → Progress → Progress
  unfolding cancel
  cancel_one id p =
      if reaches id
      then elim (cancel now id p.table).returned [
        | none ↦ p
        | some build ↦ record {
          table = (cancel now id p.table).table;
          to_cancel = id ∷ p.to_cancel;
          cancelled = p.cancelled ++ (build ∷ []);
        }
      ]
      else p

  unfoldable pub cancel_each : List Uuid → Progress → Progress
  unfolding cancel_one
  cancel_each [] p = p
  cancel_each (id ∷ ids) p = cancel_each ids (cancel_one id p)

  -- `while let Some(build_id) = to_cancel.pop()`.
  unfoldable pub cascade : ℕ → Progress → Cascaded
  unfolding cancel_each
  cascade zero p = out_of_fuel
  cascade (suc fuel) p = elim p.to_cancel [
    | [] ↦ finished p.table p.cancelled
    | id ∷ ids ↦ elim (dependents_of id) [
      | failed ↦ broken p.table
      | answered dependents ↦ cascade fuel (cancel_each dependents (record p { to_cancel = ids }))
    ]
  ]

  unfoldable pub cancel_target : Uuid → Table → Progress
  unfolding cancel_one
  cancel_target id t =
      record (cancel_one id (record { table = t; to_cancel = []; cancelled = [] })) {
        to_cancel = id ∷ [];
      }

  -- Every round pops one id, and every push cancels a row.
  unfoldable pub cancel_cascade : Uuid → Table → Cascaded
  unfolding cascade cancel_target
  cancel_cascade id t = cascade (cancellable_rows t + 2) (cancel_target id t)
