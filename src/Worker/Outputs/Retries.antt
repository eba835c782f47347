-- ===== src/Worker/Outputs/Retries.antt =====
-- crates/queue-runner/src/worker.rs: what `push_to_cache` reports.
use circus.Common.{
  ℕ, zero, suc, ◌+◌, ◌≤◌, ◌<◌, ◌≡◌, refl, ◌↔◌, inl, inr, Bool, false, List, [], ◌∷◌, String, arith,
  In, Bool-cases,
}
use circus.Worker.Outputs.{pushed, push_to_cache}

pub pushed-false :
    (works : ℕ → Bool) (left attempt i : ℕ)
    → pushed works left attempt ≡ false
    → attempt ≤ i
    → i < attempt + left
    → works i ≡ false
pushed-false works zero attempt i h low high = ground (arith, low, high)
pushed-false works (suc left) attempt i h low high =
    ground (arith, pushed-false works left (suc attempt) i)

pub pushed-false_of_all :
    (works : ℕ → Bool) (left attempt : ℕ)
    → ((i : ℕ) → i < attempt + left → works i ≡ false)
    → pushed works left attempt ≡ false
pushed-false_of_all works zero attempt h = refl
pushed-false_of_all works (suc left) attempt h = ground (
  arith,
  h attempt (omega arith),
  pushed-false_of_all works left (suc attempt) (λ i less. h i (omega (arith, less))),
)

-- `push_to_cache` reports exactly the paths for which `nix copy` failed at every one of the attempts 0 to
-- `max_retries`.
pub push_to_cache_iff :
    (works : String → ℕ → Bool) (max_retries : ℕ) (paths : List String) (path : String)
    → In path (push_to_cache works max_retries paths)
      ↔ (In path paths × ((i : ℕ) → i ≤ max_retries → works path i ≡ false))
unfolding push_to_cache
push_to_cache_iff works max_retries [] path = (λ (h : ⊥). elim h [ ], λ h. elim h.0 [ ])
push_to_cache_iff works max_retries (p ∷ paths) path =
    let rest = push_to_cache_iff works max_retries paths path in
    elim (Bool-cases (pushed (works p) (suc max_retries) 0)) [
      | inl y ↦
          let absurd : ((i : ℕ) → i ≤ max_retries → works p i ≡ false) → ⊥ = λ h. ground (
            arith,
            y,
            pushed-false_of_all (works p) (suc max_retries) 0 (λ i l. h i (omega (arith, l))),
          ) in
          ground (arith, y, rest, absurd)
      | inr n ↦
          let all : (i : ℕ) → i ≤ max_retries → works p i ≡ false = λ i l.
            pushed-false (works p) (suc max_retries) 0 i n (omega arith) (omega (arith, l)) in
          ground (arith, n, rest, all)
    ]
