-- ===== src/Dispatch/Select/Ranked.antt =====
-- crates/queue-runner/src/dispatch.rs: the first agent of a ranked list that still has a slot.
use circus.Common.{
  some_inj, ap, ◌∙◌, ℕ, ◌≤◌, ◌<◌, ◌≡◌, ◌≢◌, refl, sym, subst, List, [], ◌∷◌, some, none, arith, In,
  All-In, Option-cases, inl, inr,
}
use circus.Common.Float.{Float32}
use circus.Common.Sort.{Ascending}
use circus.Rpc.Agent.{Heap, Handle, try_acquire_slot}
use circus.Dispatch.Select.{Candidate, Reserved, reserve_first}

pub try_acquire_slot-ne-none :
    {F : Type 0} (heap : Heap F) (h : Handle)
    → (heap h).current_jobs < (heap h).max_jobs
    → try_acquire_slot h heap ≢ none
unfolding try_acquire_slot
try_acquire_slot-ne-none heap h lt e = ground arith

pub try_acquire_slot-eq-none :
    {F : Type 0} (heap : Heap F) (h : Handle)
    → try_acquire_slot h heap ≡ none
    → (heap h).max_jobs ≤ (heap h).current_jobs
unfolding try_acquire_slot
try_acquire_slot-eq-none heap h e = ground arith

module _ (fl : Float32) (heap : Heap fl.Carrier) where
  reserve_first_next :
      (c : Candidate fl) (cs : List (Candidate fl))
      → try_acquire_slot c.0 heap ≡ none
      → reserve_first fl heap (c ∷ cs) ≡ reserve_first fl heap cs
  unfolding reserve_first
  reserve_first_next c cs n = rw (n, reserve_first)

  reserve_first_here :
      (c : Candidate fl) (cs : List (Candidate fl)) (taken : Heap fl.Carrier)
      → try_acquire_slot c.0 heap ≡ some taken
      → reserve_first fl heap (c ∷ cs) ≡ some (record { chosen = c; heap = taken })
  unfolding reserve_first
  reserve_first_here c cs taken s = rw (s, reserve_first)

  pub reserve_first-eq-some :
      (cs : List (Candidate fl)) (r : Reserved fl)
      → reserve_first fl heap cs ≡ some r
      → In r.chosen cs × (try_acquire_slot r.chosen.0 heap ≡ some r.heap)
  reserve_first-eq-some [] r e = unfold reserve_first in cc
  reserve_first-eq-some (c ∷ cs) r e = elim (Option-cases (try_acquire_slot c.0 heap)) [
    | inl n ↦
        let (m, s) = reserve_first-eq-some cs r (sym (reserve_first_next c cs n) ∙ e) in (inr m, s)
    | inr (taken, s) ↦
        let same = some_inj (sym (reserve_first_here c cs taken s) ∙ e) in
        subst
          (λ (q : Reserved fl).
            In q.chosen (c ∷ cs) × (try_acquire_slot q.chosen.0 heap ≡ some q.heap))
          same (inl refl, s)
  ]

  pub reserve_first-eq-none :
      (cs : List (Candidate fl)) (c : Candidate fl)
      → reserve_first fl heap cs ≡ none
      → In c cs
      → try_acquire_slot c.0 heap ≡ none
  reserve_first-eq-none [] c e m = absurd m
  reserve_first-eq-none (d ∷ cs) c e m = elim (Option-cases (try_acquire_slot d.0 heap)) [
    | inl n ↦ elim m [
      | inl k ↦ subst (λ (x : Candidate fl). try_acquire_slot x.0 heap ≡ none) (sym k) n
      | inr k ↦ reserve_first-eq-none cs c (sym (reserve_first_next d cs n) ∙ e) k
    ]
    | inr (taken, s) ↦ cc (reserve_first_here d cs taken s)
  ]

  pub reserve_first-least :
      (key : Candidate fl → ℕ) (cs : List (Candidate fl)) (c : Candidate fl) (r : Reserved fl)
      → Ascending key cs
      → reserve_first fl heap cs ≡ some r
      → In c cs
      → try_acquire_slot c.0 heap ≢ none
      → key r.chosen ≤ key c
  reserve_first-least key [] c r asc e m n = absurd m
  reserve_first-least key (d ∷ cs) c r (least, asc) e m n =
      elim (Option-cases (try_acquire_slot d.0 heap)) [
        | inl full ↦ elim m [
          | inl k ↦
              absurd
                (n (subst (λ (x : Candidate fl). try_acquire_slot x.0 heap ≡ none) (sym k) full))
          | inr k ↦ reserve_first-least key cs c r asc (sym (reserve_first_next d cs full) ∙ e) k n
        ]
        | inr (taken, s) ↦
            let same = some_inj (sym (reserve_first_here d cs taken s) ∙ e) in
            let first : key d ≤ key c = elim m [
              | inl k ↦ omega (arith, ap key k)
              | inr k ↦ All-In _ c cs least k
            ] in
            subst (λ (q : Reserved fl). key q.chosen ≤ key c) same first
      ]
