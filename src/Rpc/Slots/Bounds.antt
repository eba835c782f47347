-- ===== src/Rpc/Slots/Bounds.antt =====
-- The slot counter under contention: it counts the guards and never passes `max_jobs`.
use circus.Common.{ℕ, zero, suc, ◌+◌, ◌≤◌, ◌<◌, ◌≡◌, refl, sym, List, [], ◌∷◌, arith, replicate}
use circus.Rpc.Slots.{
  u32_mod, Phase, idle, loaded, holding, refused, Operation, operate, Slots, step, run, held, fresh,
}

-- One operation keeps the counter equal to the guards of the task and of the `others`.
operate_counts :
    (max_jobs : ℕ) (op : Operation) (p : Phase) (c others : ℕ)
    → max_jobs < u32_mod
    → c ≡ others + held (p ∷ [])
    → c ≤ max_jobs
    → ((operate max_jobs op p c).current_jobs
        ≡ others + held ((operate max_jobs op p c).phase ∷ []))
      × ((operate max_jobs op p c).current_jobs ≤ max_jobs)
unfolding operate
operate_counts m op p c o h e l = ground arith

held-cons : (p : Phase) (ps : List Phase) → held (p ∷ ps) ≡ held (p ∷ []) + held ps
held-cons idle ps = omega arith
held-cons (loaded n) ps = omega arith
held-cons holding ps = omega arith
held-cons refused ps = omega arith

step_counts :
    (max_jobs : ℕ) (op : Operation) (i : ℕ) (ps : List Phase) (c others : ℕ)
    → max_jobs < u32_mod
    → c ≡ others + held ps
    → c ≤ max_jobs
    → ((step max_jobs op i ps c).current_jobs ≡ others + held (step max_jobs op i ps c).tasks)
      × ((step max_jobs op i ps c).current_jobs ≤ max_jobs)
unfolding step
step_counts m op i [] c o h e l = (e, l)
step_counts m op zero (p ∷ ps) c o h e l =
    let r = operate m op p c in
    let counted = operate_counts m op p c (o + held ps) h (omega (arith, held-cons p ps)) l in
    (omega (arith, counted, held-cons r.phase ps), counted.1)
step_counts m op (suc i) (p ∷ ps) c o h e l =
    let rest = (step m op i ps c).tasks in
    let counted = step_counts m op i ps c (o + held (p ∷ [])) h (omega (arith, held-cons p ps)) l in
    (omega (arith, counted, held-cons p rest), counted.1)

run_counts :
    (max_jobs : ℕ) (schedule : List (ℕ × Operation)) (s : Slots)
    → max_jobs < u32_mod
    → s.current_jobs ≡ held s.tasks
    → s.current_jobs ≤ max_jobs
    → ((run max_jobs schedule s).current_jobs ≡ held (run max_jobs schedule s).tasks)
      × ((run max_jobs schedule s).current_jobs ≤ max_jobs)
unfolding run
run_counts m [] s h e l = (e, l)
run_counts m ((i, op) ∷ schedule) s h e l =
    let (e', l') = step_counts m op i s.tasks s.current_jobs 0 h (omega arith) l in
    run_counts m schedule (step m op i s.tasks s.current_jobs) h (omega arith) l'

held-idle : (n : ℕ) → held (replicate n idle) ≡ 0
held-idle zero = refl
held-idle (suc n) = held-idle n

-- However many tasks contend for the slots of an agent, in whatever order their loads, exchanges
-- (spurious failures included) and guard drops come, the counter is the number of guards that are
-- alive, and there are never more of them than `max_jobs`, a `u32`.
pub no_oversubscription :
    (max_jobs contenders : ℕ) (schedule : List (ℕ × Operation))
    → max_jobs < u32_mod
    → ((run max_jobs schedule (fresh contenders)).current_jobs
        ≡ held (run max_jobs schedule (fresh contenders)).tasks)
      × (held (run max_jobs schedule (fresh contenders)).tasks ≤ max_jobs)
no_oversubscription m n schedule h =
    let start : 0 ≡ held (replicate n idle) = sym (held-idle n) in
    let (e, l) = run_counts m schedule (fresh n) h start (omega arith) in (e, omega arith)
