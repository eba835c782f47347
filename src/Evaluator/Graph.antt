-- ===== src/Evaluator/Graph.antt =====
-- crates/evaluator/src/builds.rs, `expand_derivation_graph`: the jobs of an evaluation and the
-- derivations below them that have to be built. What `nix derivation show --recursive` and `nix-store
-- --check-validity` answer are arguments. A map is the list of its entries, in the order in which it
-- yields them; of `input_drvs` only the keys are read.
pub mod Invalid
pub mod Pending
pub mod Expands
pub mod Reach
pub mod Rebuilt
use Prim.Native.Char.{code}
use circus.Common.{
  ℕ, zero, suc, ◌+◌, Bool, true, false, not, ◌&&◌, List, [], ◌∷◌, ◌++◌, map, Option, none, some,
  String, str_eq, str_append, codes, Bytes, any, length, ◌==◌, if◌then◌else◌, take,
}
use circus.Rpc.Agent.{contains}
use circus.Evaluator.JobName.{dependency_job_name}

pub record NixMeta : Type 0 where
  pub description : Option String
  pub license : Option String
  pub homepage : Option String
  pub maintainers : Option String

-- `NixMeta::default()`.
abbrev pub no_meta : NixMeta
no_meta = record { description = none; license = none; homepage = none; maintainers = none }

pub record NixJob : Type 0 where
  pub name : String
  pub drv_path : String
  pub system : Option String
  pub outputs : Option (List (String × String))
  pub input_drvs : Option (List String)
  pub constituents : Option (List String)
  pub meta : NixMeta

pub record DerivationInfo : Type 0 where
  pub system : Option String
  pub outputs : Option (List (String × String))
  pub input_drvs : Option (List String)
  pub required_features : List String

abbrev pub Derivations : Type 0
Derivations = List (String × DerivationInfo)

-- `HashMap::get`.
unfoldable pub get {ℓ} : {A : Type ℓ} → List (String × A) → String → Option A
get [] k = none
get ((j, a) ∷ m) k = if str_eq j k then some a else get m k

abbrev pub values {ℓ} : {A : Type ℓ} → List (String × A) → List A
values m = map (λ e. e.1) m

-- What a loop over `if let Some(list)` goes through.
abbrev pub items {ℓ} : {A : Type ℓ} → Option (List A) → List A
items none = []
items (some xs) = xs

unfoldable pub should_enqueue_derivation : DerivationInfo → List String → Bool
should_enqueue_derivation info invalid_outputs = elim info.outputs [
  | none ↦ true
  | some outputs ↦ any (contains invalid_outputs) (values outputs)
]

-- The job that is added for a derivation.
unfoldable pub dependency_job : String → DerivationInfo → NixJob
unfolding dependency_job_name
dependency_job drv info = record {
  name = dependency_job_name drv;
  drv_path = drv;
  system = info.system;
  outputs = info.outputs;
  input_drvs = info.input_drvs;
  constituents = none;
  meta = no_meta;
}

abbrev pub paths_of : List NixJob → List String
paths_of jobs = map (λ j. j.drv_path) jobs

abbrev pub inputs_of : List NixJob → List String
inputs_of [] = []
inputs_of (j ∷ jobs) = items j.input_drvs ++ inputs_of jobs

-- The loop over the queue. `included` has the newest path first; `none` is that the fuel runs out.
module _ (derivations : Derivations) (invalid : List String) where
  unfoldable pub expand_queued : ℕ → List String → List String → List NixJob → Option (List NixJob)
  unfolding get should_enqueue_derivation dependency_job
  expand_queued zero included queued expanded = none
  expand_queued (suc fuel) included [] expanded = some expanded
  expand_queued (suc fuel) included (drv ∷ queued) expanded =
      let skipped = expand_queued fuel included queued expanded in
      if contains included drv then skipped else elim (get derivations drv) [
        | none ↦ skipped
        | some info ↦
            let added =
              expand_queued fuel (drv ∷ included) (queued ++ items info.input_drvs)
                (expanded ++ (dependency_job drv info ∷ [])) in
            if should_enqueue_derivation info invalid then added else skipped
      ]

-- The inputs of all derivations: no more paths are ever queued.
abbrev pub all_inputs : Derivations → ℕ
all_inputs [] = 0
all_inputs ((drv, info) ∷ derivations) = length (items info.input_drvs) + all_inputs derivations

unfoldable pub expand_jobs : List NixJob → Derivations → List String → Option (List NixJob)
unfolding expand_queued
expand_jobs jobs derivations invalid =
    expand_queued derivations invalid (suc (length (inputs_of jobs) + all_inputs derivations))
      (paths_of jobs) (inputs_of jobs) jobs

-- `paths.chunks(n)`, by fuel.
abbrev pub drop : {A : Type 0} → ℕ → List A → List A
drop zero xs = xs
drop (suc n) [] = []
drop (suc n) (x ∷ xs) = drop n xs

unfoldable pub chunks : ℕ → List String → ℕ → List (List String)
chunks n [] fuel = []
chunks n (x ∷ xs) zero = []
chunks n (x ∷ xs) (suc fuel) = take n (x ∷ xs) ∷ chunks n (drop n (x ∷ xs)) fuel

-- The outputs that are valid only if the command vouches for them. `check` answers a chunk with the
-- lines that it prints, or with nothing where it fails.
abbrev pub known_outputs : Derivations → List String
known_outputs [] = []
known_outputs ((drv, info) ∷ derivations) =
    let rest = known_outputs derivations in
    elim info.outputs [ none ↦ rest | some outputs ↦ values outputs ++ rest ]

unfoldable pub distinct : List String → List String
distinct [] = []
distinct (p ∷ ps) = let rest = distinct ps in if contains rest p then rest else p ∷ rest

abbrev pub chunk_size : ℕ
chunk_size = 1024

abbrev pub Check : Type 0
Check = List String → Option (List String)

unfoldable pub invalid_in : Check → List (List String) → List String
invalid_in check [] = []
invalid_in check (chunk ∷ rest) =
    let more = invalid_in check rest in
    elim (check chunk) [ none ↦ chunk ++ more | some lines ↦ lines ++ more ]

unfoldable pub invalid_output_paths : Derivations → Check → List String
unfolding distinct chunks invalid_in
invalid_output_paths derivations check =
    let paths = distinct (known_outputs derivations) in
    invalid_in check (chunks chunk_size paths (length paths))

-- Nothing is added where the derivations are not known.
unfoldable pub expand_derivation_graph : List NixJob → Derivations → Check → Option (List NixJob)
unfolding expand_jobs invalid_output_paths
expand_derivation_graph jobs [] check = some jobs
expand_derivation_graph jobs ((drv, info) ∷ derivations) check =
    let known = (drv, info) ∷ derivations in
    expand_jobs jobs known (invalid_output_paths known check)
