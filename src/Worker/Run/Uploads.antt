-- ===== src/Worker/Run/Uploads.antt =====
-- crates/queue-runner/src/worker.rs: when `conclude` takes the uploads of a run to have failed.
use circus.Common.{
  ℕ, zero, suc, ◌≤◌, ◌≡◌, refl, inl, inr, Bool, true, false, not, List, [], ◌∷◌, String, arith, any,
  Bool-cases, Option-cases,
}
use circus.Models.Rows.{Build}
use circus.Worker.{BuildResult, RunAnswers}
use circus.Worker.Outputs.{pushed, push_to_cache}
use circus.Worker.Outputs.Retries.{pushed-false, pushed-false_of_all}
use circus.Worker.Record.{is_empty, uploads_fail}
use circus.Worker.Run.Verdict.{attempts_fail, upload_lost}

attempts_fail_sound :
    (works : ℕ → Bool) (n i : ℕ) → attempts_fail works n ≡ true → i ≤ n → works i ≡ false
attempts_fail_sound works zero i h l = ground (arith, h, l)
attempts_fail_sound works (suc n) i h l = ground (arith, h, l, attempts_fail_sound works n i)

attempts_fail_complete :
    (works : ℕ → Bool) (n : ℕ) → ((i : ℕ) → i ≤ n → works i ≡ false) → attempts_fail works n ≡ true
attempts_fail_complete works zero h = ground (arith, h 0 (omega arith))
attempts_fail_complete works (suc n) h =
    ground (
      arith,
      h (suc n) (omega arith),
      attempts_fail_complete works n (λ i l. h i (omega (arith, l))),
    )

pushed-attempts_fail :
    (works : ℕ → Bool) (n : ℕ) → pushed works (suc n) 0 ≡ not (attempts_fail works n)
pushed-attempts_fail works n = elim (Bool-cases (attempts_fail works n)) [
  | inl y ↦
      let none_works =
        pushed-false_of_all works (suc n) 0
          (λ i l. attempts_fail_sound works n i y (omega (arith, l))) in
      ground (arith, y, none_works)
  | inr bad ↦ elim (Bool-cases (pushed works (suc n) 0)) [
    | inl p ↦ ground (arith, bad, p)
    | inr p ↦
        let all =
          attempts_fail_complete works n
            (λ i l. pushed-false works (suc n) 0 i p (omega arith) (omega (arith, l))) in
        ground (arith, bad, all)
  ]
]

is_empty-push_to_cache :
    (works : String → ℕ → Bool) (n : ℕ) (paths : List String)
    → is_empty (push_to_cache works n paths)
      ≡ not (any (λ path. attempts_fail (works path) n) paths)
unfolding push_to_cache
is_empty-push_to_cache works n [] = refl
is_empty-push_to_cache works n (path ∷ paths) = elim (Bool-cases (attempts_fail (works path) n)) [
  | inl y ↦ let p = pushed-attempts_fail (works path) n in ground (arith, y, p)
  | inr bad ↦
      let p = pushed-attempts_fail (works path) n in
      let rest = is_empty-push_to_cache works n paths in ground (arith, bad, p, rest)
]

-- The run takes the uploads to have failed exactly when an upload that must not fail is lost.
pub uploads_fail-upload_lost :
    (a : RunAnswers) (build : Build) (r : BuildResult)
    → uploads_fail a build r ≡ upload_lost a build r
unfolding uploads_fail
uploads_fail-upload_lost a build r =
    let e = is_empty-push_to_cache a.push_works a.upload_max_retries r.output_paths in
    elim (Option-cases a.store_uri) [
      | inl n ↦ ground (arith, n)
      | inr (uri, k) ↦ ground (arith, k, e)
    ]
