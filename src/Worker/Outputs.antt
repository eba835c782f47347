-- ===== src/Worker/Outputs.antt =====
-- crates/queue-runner/src/worker.rs: what `run_build` does with the outputs of a build, and
-- `sign_outputs` and `push_to_cache`.
pub mod Retries
use circus.Common.{
  ℕ, zero, suc, Bool, true, false, not, ◌&&◌, List, [], ◌∷◌, ◌++◌, Option, none, some, String,
  str_eq, str_append, decimal, ◌==◌, if◌then◌else◌,
}
use circus.Models.Rows.{Build}
use circus.Worker.{
  Effect, create_output, register_root, create_product, set_gc_root, sign_path, RunAnswers,
}

-- `path_to_name`: a map collected from the entries, so the last entry of a path counts.
abbrev name_among : List (String × Option String) → String → Option String
name_among [] path = none
name_among ((name, value) ∷ entries) path = elim (name_among entries path) [
  | some later ↦ some later
  | none ↦ elim value [ none ↦ none | some p ↦ if str_eq p path then some name else none ]
]

unfoldable pub path_to_name : Build → String → Option String
path_to_name build path = elim build.outputs [
  | none ↦ none
  | some entries ↦ name_among entries path
]

unfoldable pub output_name : Build → ℕ → String → String
unfolding path_to_name decimal
output_name build i path = elim (path_to_name build path) [
  | some name ↦ name
  | none ↦ if i == 0 then "out" else str_append "out" (decimal i)
]

unfoldable pub product_name : Build → ℕ → String → String
unfolding path_to_name decimal
product_name build i path = elim (path_to_name build path) [
  | some name ↦ name
  | none ↦ if i == 0 then build.job_name else str_append build.job_name (str_append "-" (decimal i))
]

-- A failure to store an output is only a warning.
unfoldable pub store_outputs : Build → ℕ → List String → List Effect
unfolding output_name
store_outputs build i [] = []
store_outputs build i (path ∷ paths) =
    create_output build.id (output_name build i path) path ∷ store_outputs build (suc i) paths

-- The products, with whether all queries answered: a failing one ends the loop and the run.
pub record Stored : Type 0 where
  pub answered : Bool
  pub effects : List Effect

module _ (a : RunAnswers) where
  abbrev pub rooted : Build → ℕ → String → Option String → Stored → Stored
  rooted build i path none rest = record {
    answered = rest.answered;
    effects = create_product build.id (product_name build i path) path ∷ rest.effects;
  }
  rooted build i path (some link) rest = record {
    answered = a.gc_root_answers path && rest.answered;
    effects =
        register_root build.id path
        ∷ create_product build.id (product_name build i path) path
        ∷ (if a.gc_root_answers path then set_gc_root build.id path link ∷ rest.effects else []);
  }

  abbrev pub unstored : Build → String → Option String → Stored
  unstored build path none = record { answered = false; effects = [] }
  unstored build path (some link) = record {
    answered = false;
    effects = register_root build.id path ∷ [];
  }

  unfoldable pub create_products : Build → ℕ → List String → Stored
  unfolding product_name
  create_products build i [] = record { answered = true; effects = [] }
  create_products build i (path ∷ paths) =
      let rest = create_products build (suc i) paths in
      if a.products_answer path
      then rooted build i path (a.gc_root_of i path) rest
      else unstored build path (a.gc_root_of i path)

  abbrev any_failed : List String → Bool
  any_failed [] = false
  any_failed (path ∷ paths) =
      let rest = any_failed paths in if a.sign_works path then rest else true

  unfoldable pub sign_outputs : List String → Bool
  sign_outputs paths = if a.key_usable then not (any_failed paths) else false

  abbrev pub signings : List String → List Effect
  signings [] = []
  signings (path ∷ paths) = sign_path path ∷ signings paths

  unfoldable pub signing_effects : List String → List Effect
  signing_effects paths = if a.key_usable then signings paths else []

-- The attempts of one path that remain, from an attempt on: the first that works ends them.
abbrev pub pushed : (ℕ → Bool) → ℕ → ℕ → Bool
pushed works zero attempt = false
pushed works (suc left) attempt =
    let later = pushed works left (suc attempt) in if works attempt then true else later

-- `push_to_cache`: the paths that exhausted `0..=max_retries`.
unfoldable pub push_to_cache : (String → ℕ → Bool) → ℕ → List String → List String
push_to_cache works max_retries [] = []
push_to_cache works max_retries (path ∷ paths) =
    let rest = push_to_cache works max_retries paths in
    if pushed (works path) (suc max_retries) 0 then rest else path ∷ rest
