-- ===== src/Evaluator/Describe.antt =====
-- crates/evaluator/src/builds.rs, `create_builds_from_eval`: the build that is described for a job.
use circus.Common.{
  Bool, true, false, List, [], ◌∷◌, ◌++◌, Option, none, some, String, ◌==◌, if◌then◌else◌, Bytes,
  codes,
}
use circus.Common.Strings.{strip_prefix}
use circus.Rpc.Agent.{Uuid}
use circus.Evaluator.Graph.{NixMeta, NixJob, Derivations, get}

-- `find` of a text, and what stands behind it; `find` of a quotation mark, and what stands before it.
abbrev after : Bytes → Bytes → Option Bytes
after marker [] = strip_prefix marker []
after marker (c ∷ s) =
    let later = after marker s in
    elim (strip_prefix marker (c ∷ s)) [ some rest ↦ some rest | none ↦ later ]

abbrev before_quote : Bytes → Option Bytes
before_quote [] = none
before_quote (c ∷ s) =
    let rest = before_quote s in
    if c == 34 then some [] else elim rest [ none ↦ none | some t ↦ some (c ∷ t) ]

abbrev fod_marker : Bytes
fod_marker = 34 ∷ codes "outputHash" ++ (34 ∷ 44 ∷ 34 ∷ [])

-- The contents of the `.drv` file are an answer. `is_fod` is that there is a hash.
unfoldable pub detect_fod : Option Bytes → Option Bytes
unfolding strip_prefix
detect_fod none = none
detect_fod (some content) = elim (after fod_marker content) [
  | none ↦ none
  | some rest ↦ elim (before_quote rest) [
    | none ↦ none
    | some [] ↦ none
    | some (c ∷ hash) ↦ some (c ∷ hash)
  ]
]

pub record CreateBuild : Type 0 where
  pub evaluation_id : Uuid
  pub job_name : String
  pub drv_path : String
  pub system : Option String
  pub outputs : Option (List (String × String))
  pub is_aggregate : Bool
  pub constituents : Option (List String)
  pub is_fod : Bool
  pub fod_hash : Option Bytes
  pub meta : NixMeta
  pub required_features : List String

-- What the files and the nix commands answer while the builds are described.
pub record Described : Type 0 where
  pub drv_content : String → Option Bytes
  pub read_required_features : String → List String

abbrev pub is_some {ℓ} : {A : Type ℓ} → Option A → Bool
is_some none = false
is_some (some a) = true

unfoldable pub describe : Described → Uuid → Derivations → NixJob → CreateBuild
unfolding get detect_fod
describe a eval_id derivations job =
    let fod_hash = detect_fod (a.drv_content job.drv_path) in
    record {
      evaluation_id = eval_id;
      job_name = job.name;
      drv_path = job.drv_path;
      system = job.system;
      outputs = job.outputs;
      is_aggregate = is_some job.constituents;
      constituents = job.constituents;
      is_fod = is_some fod_hash;
      fod_hash = fod_hash;
      meta = job.meta;
      required_features = elim (get derivations job.drv_path) [
        | some info ↦ info.required_features
        | none ↦ a.read_required_features job.drv_path
      ];
    }
