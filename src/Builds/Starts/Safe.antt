-- ===== src/Builds/Starts/Safe.antt =====
-- queries/builds.sql, `start`: the advisory lock keeps two starts of one derivation apart.
use circus.Common.{
  ℕ, ◌≤◌, ◌≡◌, ◌≢◌, inl, inr, refl, sym, ap, ◌∙◌, subst, Bool, true, false, Option, none, some,
  String, arith, any, str_eq, ◌==◌, Bool-cases, Option-cases, eq_iff, some_inj,
}
use circus.Rpc.Agent.{Uuid}
use circus.Dispatch.Venue.{is_none}
use circus.Builds.{Table, runs, is_candidate, first_where, update_where, set_started}
use circus.Builds.Once.{
  IsExclusive, running_of, running_of-started, none_counted, count_where-update,
}
use circus.Builds.Starts.Counts.{
  owned, candidate-owned, granted-lock, granted-unseen, owned_elsewhere, started-owned,
}
use circus.Builds.Starts.{
  Phase, idle, snapped, claiming, refused, World, put, begun, granted, locked, outcome,
  attempt_start, commit_start, release,
}

pub put-all :
    {A : Type 0} (P : ℕ → A → Type 0) (i : ℕ) (a : A) (f : ℕ → A)
    → P i a
    → ((j : ℕ) → j ≢ i → P j (f j))
    → (j : ℕ) → P j (put i a f j)
put-all P i a f h hs j = elim (Bool-cases (j == i)) [
  | inl y ↦
      let own : P j a = subst (λ k. P k a) (ground (arith, y)) h in
      subst (P j) (sym (ground (arith, y))) own
  | inr n ↦ subst (P j) (sym (ground (arith, n))) (hs j (λ e. ground (arith, n, e)))
]

put-other : {A : Type 0} (i : ℕ) (a : A) (f : ℕ → A) (j : ℕ) → j ≢ i → put i a f j ≡ f j
put-other i a f j n = elim (Bool-cases (j == i)) [
  | inl y ↦ absurd (n (ground (arith, y)))
  | inr k ↦ ground (arith, k)
]

put-same : {A : Type 0} (i : ℕ) (a : A) (f : ℕ → A) → put i a f i ≡ a
put-same i a f = ground arith

module _ (hash : String → ℕ) where
  -- What is so of a session. A start holds the lock of its derivation from its attempt on, and while it
  -- has a row, no build of the derivation runs.
  abbrev pub Fits : Table → (ℕ → Option ℕ) → ℕ → Phase → Type 0
  Fits t holder j idle = Unit
  Fits t holder j (snapped id drv seen) = owned id drv t ≡ 1
  Fits t holder j (claiming id drv) =
      (holder (hash drv) ≡ some j) × (owned id drv t ≡ 1) × (running_of drv t ≡ 0)
  Fits t holder j (refused drv) = holder (hash drv) ≡ some j

  pub record IsSafe (w : World) : Type 0 where
    pub exclusive : IsExclusive w.table
    pub fits : (j : ℕ) → Fits w.table w.holder j (w.sessions j)

  pub Fits-moved :
      (t t' : Table) (holder holder' : ℕ → Option ℕ) (j : ℕ) (p : Phase)
      → ((id : Uuid) (drv : String) → owned id drv t ≡ 1 → owned id drv t' ≡ 1)
      → ((drv : String) → holder (hash drv) ≡ some j → running_of drv t ≡ 0 → running_of drv t' ≡ 0)
      → ((key : ℕ) → holder key ≡ some j → holder' key ≡ some j)
      → Fits t holder j p
      → Fits t' holder' j p
  Fits-moved t t' holder holder' j idle o r k h = tt
  Fits-moved t t' holder holder' j (snapped id drv seen) o r k h = o id drv h
  Fits-moved t t' holder holder' j (claiming id drv) o r k (l, own, z) =
      (k (hash drv) l, o id drv own, r drv l z)
  Fits-moved t t' holder holder' j (refused drv) o r k h = k (hash drv) h

  -- The end of a start, given what its commit does to the rows.
  pub release-IsSafe :
      (i : ℕ) (drv : String) (t : Table) (w : World)
      → w.holder (hash drv) ≡ some i
      → IsExclusive t
      → ((id : Uuid) (d : String) → owned id d w.table ≡ 1 → owned id d t ≡ 1)
      → ((d : String) → d ≢ drv → running_of d w.table ≡ 0 → running_of d t ≡ 0)
      → IsSafe w
      → IsSafe (release hash i drv t w)
  release-IsSafe i drv t w l once o r s = record {
    exclusive = once;
    fits = put-all (Fits t (put (hash drv) none w.holder)) i idle w.sessions tt (λ j n.
        let apart : (key : ℕ) → w.holder key ≡ some j → key ≢ hash drv =
          λ key h e. n (some_inj (sym h ∙ ap w.holder e ∙ l)) in
        Fits-moved w.table t w.holder (put (hash drv) none w.holder) j (w.sessions j) o
          (λ d h z. r d (λ e. apart (hash d) h (ap hash e)) z)
          (λ key h. put-other (hash drv) none w.holder key (apart key h) ∙ h) (s.fits j));
  }

  pub begun-Fits :
      (holder : ℕ → Option ℕ) (j : ℕ) (id : Uuid) (t : Table)
      → IsExclusive t
      → Fits t holder j (begun id t (first_where (is_candidate id) (λ r. r) t))
  begun-Fits holder j id t h = elim (Option-cases (first_where (is_candidate id) (λ r. r) t)) [
    | inl n ↦ subst (λ o. Fits t holder j (begun id t o)) (sym n) tt
    | inr (r, e) ↦
        subst (λ o. Fits t holder j (begun id t o)) (sym e) (candidate-owned id r t e (h.keyed id))
  ]

  -- The session that tries the locks: a lock that it gets is its own, and without it nothing is granted.
  attempted-Fits :
      (t : Table) (holder : ℕ → Option ℕ) (i : ℕ) (id : Uuid) (drv : String) (lock got_row : Bool)
      → (got_row ≡ true → lock ≡ true)
      → (got_row ≡ true → running_of drv t ≡ 0)
      → owned id drv t ≡ 1
      → Fits t (locked hash lock i drv holder) i (outcome lock got_row id drv)
  attempted-Fits t holder i id drv true true l z o =
      (put-same (hash drv) (some i) holder, o, z refl)
  attempted-Fits t holder i id drv true false l z o = put-same (hash drv) (some i) holder
  attempted-Fits t holder i id drv false true l z o = absurd (ground (arith, l refl))
  attempted-Fits t holder i id drv false false l z o = tt

  -- A lock that another session holds is not free.
  locked-other :
      (holder : ℕ → Option ℕ) (i j key : ℕ) (drv : String) (lock : Bool)
      → lock ≡ is_none (holder (hash drv))
      → holder key ≡ some j
      → locked hash lock i drv holder key ≡ some j
  locked-other holder i j key drv false e h = h
  locked-other holder i j key drv true e h =
      let taken : key ≢ hash drv =
        λ k. let here = ap holder (sym k) ∙ h in ground (arith, e, here) in
      put-other (hash drv) (some i) holder key taken ∙ h

  pub attempt-IsSafe :
      (i : ℕ) (unlocked : Bool) (id : Uuid) (drv : String) (seen : Table) (w : World)
      → (any (runs drv) seen ≡ false → any (runs drv) w.table ≡ false)
      → owned id drv w.table ≡ 1
      → IsSafe w
      → IsSafe (attempt_start hash i unlocked (snapped id drv seen) w)
  unfolding attempt_start
  attempt-IsSafe i unlocked id drv seen w fresh o s =
      let lock = is_none (w.holder (hash drv)) in
      let got_row = granted hash w unlocked id drv seen in
      let holder = locked hash lock i drv w.holder in
      let none_runs : got_row ≡ true → running_of drv w.table ≡ 0 = λ y.
        none_counted (runs drv) w.table
          (fresh (granted-unseen lock unlocked seen id drv w.table y (s.exclusive.keyed id) o)) in
      record {
        exclusive = s.exclusive;
        fits =
            put-all (Fits w.table holder) i (outcome lock got_row id drv) w.sessions
              (attempted-Fits w.table w.holder i id drv lock got_row
                (granted-lock lock unlocked seen id w.table) none_runs o)
              (λ j n.
                Fits-moved w.table w.table w.holder holder j (w.sessions j) (λ d e h. h)
                  (λ d l z. z) (λ key h. locked-other w.holder i j key drv lock refl h) (s.fits j));
      }

  -- A start that commits makes its build the one that runs.
  pub commit-IsSafe :
      (i now : ℕ) (id : Uuid) (drv : String) (w : World)
      → Fits w.table w.holder i (claiming id drv)
      → IsSafe w
      → IsSafe (commit_start hash i now (claiming id drv) w)
  unfolding commit_start
  commit-IsSafe i now id drv w (l, o, z) s =
      let t = update_where (λ r. r.id == id) (set_started now) w.table in
      let more = λ (d : String). running_of-started (λ r. r.id == id) now d w.table in
      let elsewhere =
        λ (d : String) (n : d ≢ drv). owned_elsewhere id d drv w.table n (s.exclusive.keyed id) o in
      let once : IsExclusive t = record {
        keyed = λ k. omega (
          arith,
          s.exclusive.keyed k,
          count_where-update (λ r. r.id == k) (λ r. r.id == id) (set_started now) w.table
              (λ r e h. h),
        );
        once = λ d. elim (Bool-cases (str_eq d drv)) [
          | inl y ↦
              let e : d ≡ drv = ground (arith, y, eq_iff d drv) in
              subst (λ x. running_of x t ≤ 1) (sym e) (omega (arith, more drv, o, z))
          | inr n ↦
              let apart : d ≢ drv = λ e. ground (arith, n, e, eq_iff d drv) in
              omega (arith, more d, elsewhere d apart, s.exclusive.once d)
        ];
      } in
      release-IsSafe i drv t w l once
        (λ k d own. started-owned k d (λ r. r.id == id) now w.table ∙ own)
        (λ d n none_runs. omega (arith, more d, elsewhere d n, none_runs)) s
