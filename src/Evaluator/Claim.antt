-- ===== src/Evaluator/Claim.antt =====
-- crates/evaluator/src/evaluation_state.rs, `claim_existing`, by several evaluators at once, and the
-- queries of queries/evaluations.sql that it runs. Each query is one step on the row of the
-- evaluation; between two queries of one evaluator the others may run theirs.
pub mod Exclusive
use circus.Common.{
  ℕ, zero, suc, Bool, true, false, ◌&&◌, List, [], ◌∷◌, if◌then◌else◌, ltb, map, not,
}
use circus.Models.EvaluationStatus.{
  EvaluationStatus, pending, running, completed, failed, cancelled, timed_out,
}

-- The row, as far as the queries read it: whether its jobset permits a restart, and its builds.
pub record Row : Type 0 where
  pub status : EvaluationStatus
  pub restartable : Bool
  pub builds : ℕ

-- `ExistingEvaluationClaim`.
pub data ExistingEvaluationClaim : Type 0 where
  claimed : ExistingEvaluationClaim
  done_before : ℕ → ExistingEvaluationClaim
  is_running : ExistingEvaluationClaim
  is_cancelled : ExistingEvaluationClaim

-- Where a call of `claim_existing` stands: before its first query, with the status that it was given;
-- between two queries; or returned, with a claim or with the error of a query.
pub data Phase : Type 0 where
  given : EvaluationStatus → Phase
  requeued : Phase
  found_empty : Phase
  returned : ExistingEvaluationClaim → Phase
  broken : Phase

pub record Stepped : Type 0 where
  pub phase : Phase
  pub row : Row

-- `try_claim_pending`: `SET status = 'running' … WHERE … status = 'pending'`.
abbrev is_pending : EvaluationStatus → Bool
is_pending pending = true
is_pending _ = false

unfoldable pub try_claim_pending : Row → Stepped
try_claim_pending row =
    if is_pending row.status
    then record { phase = returned claimed; row = record row { status = running } }
    else record { phase = returned is_running; row = row }

-- `restart`: `restart_requeue` and, if that found the row, `restart_delete_builds`.
abbrev is_over : EvaluationStatus → Bool
is_over cancelled = true
is_over failed = true
is_over timed_out = true
is_over _ = false

unfoldable pub restart : Row → Stepped
restart row =
    if is_over row.status && row.restartable
    then record { phase = requeued; row = record row { status = pending; builds = 0 } }
    else record { phase = returned is_running; row = row }

-- `count_filtered`.
unfoldable pub count_builds : Row → Stepped
count_builds row =
    if ltb 0 row.builds
    then record { phase = returned (done_before row.builds); row = row }
    else record { phase = found_empty; row = row }

-- `update_status` to running, whatever the status is.
abbrev set_running : Row → Stepped
set_running row = record { phase = returned claimed; row = record row { status = running } }

-- The next query of a call, or its return without one.
unfoldable pub query : Phase → Row → Stepped
query (given pending) row = try_claim_pending row
query (given failed) row = restart row
query (given timed_out) row = restart row
query (given completed) row = count_builds row
query (given running) row = record { phase = returned is_running; row = row }
query (given cancelled) row = record { phase = returned is_cancelled; row = row }
query requeued row = try_claim_pending row
query found_empty row = set_running row
query (returned claim) row = record { phase = returned claim; row = row }
query broken row = record { phase = broken; row = row }

abbrev pub has_returned : Phase → Bool
has_returned (returned claim) = true
has_returned broken = true
has_returned _ = false

-- A query that fails changes nothing, and its error is returned.
unfoldable pub advance : Bool → Phase → Row → Stepped
advance fails p row =
    if fails && not (has_returned p) then record { phase = broken; row = row } else query p row

pub record Evaluators : Type 0 where
  pub calls : List Phase
  pub row : Row

-- The evaluator at a position goes on.
unfoldable pub step : Bool → ℕ → List Phase → Row → Evaluators
step fails i [] row = record { calls = []; row = row }
step fails zero (p ∷ ps) row =
    let r = advance fails p row in record { calls = r.phase ∷ ps; row = r.row }
step fails (suc i) (p ∷ ps) row =
    let r = step fails i ps row in record { calls = p ∷ r.calls; row = r.row }

unfoldable pub run : List (ℕ × Bool) → Evaluators → Evaluators
run [] s = s
run ((i, fails) ∷ schedule) s = run schedule (step fails i s.calls s.row)

-- The evaluators that were told to evaluate.
abbrev pub claims : List Phase → ℕ
claims [] = 0
claims (returned claimed ∷ ps) = suc (claims ps)
claims (_ ∷ ps) = claims ps

-- Calls that have not begun, each with the status that its caller read.
abbrev pub begin : List EvaluationStatus → List Phase
begin statuses = map given statuses
