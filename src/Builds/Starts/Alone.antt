-- ===== src/Builds/Starts/Alone.antt =====
-- queries/builds.sql, `start`: the steps of a start that nothing comes between are the statement.
use circus.Common.{
  ℕ, ◌≤◌, ◌≡◌, refl, sym, inl, inr, Bool, true, false, [], ◌∷◌, none, String, arith, any, ◌==◌,
  Bool-cases, Option-cases,
}
use circus.Rpc.Agent.{Uuid}
use circus.Models.Rows.{Build}
use circus.Builds.{
  Table, is_candidate, can_start, first_where, update_where, set_started, rows_of, start,
}
use circus.Builds.Starts.Counts.{any-count}
use circus.Builds.Once.{count_where-le}
use circus.Builds.Starts.{quiet, begin, attempt, commit, attempt_start, commit_start, step, run}

update_where-none :
    (p : Build → Bool) (set : Build → Build) (t : Table)
    → any p t ≡ false
    → update_where p set t ≡ t
update_where-none p set [] h = refl
update_where-none p set (r ∷ t) h = ground (arith, h, update_where-none p set t)

no_row : (id : Uuid) (t : Table) → rows_of id t ≡ 0 → any (λ r. r.id == id) t ≡ false
no_row id [] h = refl
no_row id (r ∷ t) h = ground (arith, h, no_row id t)

-- The one row of a build, found by its id or by a test that only it passes.
update_where-one :
    (p : Build → Bool) (set : Build → Build) (id : Uuid) (t : Table)
    → ((r : Build) → p r ≡ true → (r.id == id) ≡ true)
    → any p t ≡ true
    → rows_of id t ≤ 1
    → update_where (λ r. r.id == id) set t ≡ update_where p set t
update_where-one p set id [] sub h k = cc
update_where-one p set id (r ∷ t) sub h k =
    let fewer = count_where-le p (λ x. x.id == id) t sub in
    elim (Bool-cases (p r)) [
      | inl y ↦
          let own = sub r y in
          let gone : rows_of id t ≡ 0 = ground (arith, own, k) in
          let same = update_where-none (λ x. x.id == id) set t (no_row id t gone) in
          elim (Bool-cases (any p t)) [
            | inl z ↦ absurd (omega (arith, any-count p t z, fewer, gone))
            | inr z ↦ ground (arith, y, own, same, update_where-none p set t z)
          ]
      | inr n ↦
          let later : any p t ≡ true = ground (arith, n, h) in
          let here = any-count p t later in
          let elsewhere : (r.id == id) ≡ false = ground (arith, here, fewer, k) in
          let rest = update_where-one p set id t sub later (omega (arith, k)) in
          ground (arith, n, elsewhere, rest)
    ]

no_candidate :
    (unlocked : Bool) (seen : Table) (id : Uuid) (t : Table)
    → first_where (is_candidate id) (λ r. r) t ≡ none
    → any (can_start true unlocked seen id) t ≡ false
no_candidate unlocked seen id [] h = refl
no_candidate unlocked seen id (r ∷ t) h = ground (arith, h, no_candidate unlocked seen id t)

-- In a table with unique ids, a start that begins, tries its locks and commits with nothing in between does
-- what the statement does in one step.
alone-start :
    (hash : String → ℕ) (id : Uuid) (unlocked : Bool) (now : ℕ) (t : Table)
    → rows_of id t ≤ 1
    → (run hash (begin 0 id ∷ attempt 0 unlocked ∷ commit 0 now ∷ []) (quiet t)).table
      ≡ (start now true unlocked t id t).table
unfolding run step attempt_start commit_start start
alone-start hash id unlocked now t k =
    elim (Option-cases (first_where (is_candidate id) (λ r. r) t)) [
      | inl n ↦
          let same =
            update_where-none (can_start true unlocked t id) (set_started now) t
              (no_candidate unlocked t id t n) in
          rw n (sym same)
      | inr (r, e) ↦ elim (Bool-cases (any (can_start true unlocked t id) t)) [
        | inl y ↦
            let one =
              update_where-one (can_start true unlocked t id) (set_started now) id t
                (λ x h. ground (arith, h)) y k in
            rw e (rw y one)
        | inr z ↦
            let same = update_where-none (can_start true unlocked t id) (set_started now) t z in
            rw e (rw z (sym same))
      ]
    ]
