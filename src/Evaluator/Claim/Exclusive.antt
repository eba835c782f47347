-- ===== src/Evaluator/Claim/Exclusive.antt =====
-- crates/evaluator/src/evaluation_state.rs: an evaluation that was not completed is claimed once.
use circus.Common.{
  ℕ, zero, suc, ◌+◌, ◌≤◌, ◌≡◌, ◌≢◌, ◌⊎◌, inr, refl, Bool, true, List, [], ◌∷◌, arith,
}
use circus.Models.EvaluationStatus.{EvaluationStatus, running, completed}
use circus.Evaluator.Claim.{
  Row, Phase, given, found_empty, try_claim_pending, restart, query, advance, Evaluators, step, run,
  claims, begin, has_returned, count_builds,
}

-- A call that cannot reach the unconditional update: its caller did not read `completed`.
abbrev pub Guarded : Phase → Type 0
Guarded p = (p ≢ given completed) × (p ≢ found_empty)

abbrev pub AllGuarded : List Phase → Type 0
AllGuarded [] = Unit
AllGuarded (p ∷ ps) = Guarded p × AllGuarded ps

-- If the row is not running nobody has the claim, and at most one has it.
abbrev Exclusive : Row → ℕ → Type 0
Exclusive row n = ((row.status ≡ running) ⊎ (n ≡ 0)) × (n ≤ 1)

advance_keeps :
    (fails : Bool) (p : Phase) (row : Row) (others : ℕ)
    → Guarded p
    → Exclusive row (others + claims (p ∷ []))
    → Guarded (advance fails p row).phase
      × Exclusive (advance fails p row).row (others + claims ((advance fails p row).phase ∷ []))
unfolding advance query try_claim_pending restart
advance_keeps fails p row others g e = ground arith

claims-cons : (p : Phase) (ps : List Phase) → claims (p ∷ ps) ≡ claims (p ∷ []) + claims ps
claims-cons p ps = ground arith

step_keeps :
    (fails : Bool) (i : ℕ) (ps : List Phase) (row : Row) (others : ℕ)
    → AllGuarded ps
    → Exclusive row (others + claims ps)
    → let r = step fails i ps row in AllGuarded r.calls × Exclusive r.row (others + claims r.calls)
unfolding step
step_keeps fails i [] row others g e = (g, e)
step_keeps fails zero (p ∷ ps) row others (g, gs) (a, b) =
    let r = advance fails p row in
    let e' : Exclusive row ((others + claims ps) + claims (p ∷ [])) =
      ground (arith, a, b, claims-cons p ps) in
    let (g', e'') = advance_keeps fails p row (others + claims ps) g e' in
    ((g', gs), ground (arith, e'', claims-cons r.phase ps))
step_keeps fails (suc i) (p ∷ ps) row others (g, gs) (a, b) =
    let rest = step fails i ps row in
    let e' : Exclusive row ((others + claims (p ∷ [])) + claims ps) =
      ground (arith, a, b, claims-cons p ps) in
    let (gs', e'') = step_keeps fails i ps row (others + claims (p ∷ [])) gs e' in
    ((g, gs'), ground (arith, e'', claims-cons p rest.calls))

run_keeps :
    (schedule : List (ℕ × Bool)) (s : Evaluators)
    → AllGuarded s.calls
    → Exclusive s.row (claims s.calls)
    → claims (run schedule s).calls ≤ 1
unfolding run
run_keeps [] s g e = e.1
run_keeps ((i, fails) ∷ schedule) s g e =
    let (g', e') = step_keeps fails i s.calls s.row 0 g (ground (arith, e)) in
    run_keeps schedule (step fails i s.calls s.row) g' (ground (arith, e'))

-- No caller of the list has read `completed`.
abbrev pub NoneCompleted : List EvaluationStatus → Type 0
NoneCompleted [] = Unit
NoneCompleted (s ∷ statuses) = (s ≢ completed) × NoneCompleted statuses

begin-AllGuarded :
    (statuses : List EvaluationStatus) → NoneCompleted statuses → AllGuarded (begin statuses)
begin-AllGuarded [] n = tt
begin-AllGuarded (s ∷ statuses) (n, ns) =
    (((λ e. ground (arith, e, n)), (λ e. ground (arith, e))), begin-AllGuarded statuses ns)

claims-begin : (statuses : List EvaluationStatus) → claims (begin statuses) ≡ 0
claims-begin [] = refl
claims-begin (s ∷ statuses) = claims-begin statuses

-- However many evaluators call `claim_existing` on one evaluation, with whatever statuses other than
-- `completed` they read before, and however their queries interleave and fail, at most one of them is
-- told to evaluate, as long as nothing else changes the row.
pub claim_exclusive :
    (statuses : List EvaluationStatus) (row : Row) (schedule : List (ℕ × Bool))
    → NoneCompleted statuses
    → claims (run schedule (record { calls = begin statuses; row = row })).calls ≤ 1
claim_exclusive statuses row schedule n =
    let none_yet = claims-begin statuses in
    run_keeps schedule (record { calls = begin statuses; row = row }) (begin-AllGuarded statuses n)
      (inr none_yet, omega (arith, none_yet))

-- A call returns after two queries at the latest, whatever the other evaluators do to the row between
-- the two and whether or not a query fails.
claim_returns :
    (status : EvaluationStatus) (row row' : Row) (first second : Bool)
    → has_returned (advance second (advance first (given status) row).phase row').phase ≡ true
unfolding advance query try_claim_pending restart count_builds
claim_returns status row row' first second = ground arith
