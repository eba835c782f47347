-- ===== src/Evaluator/JobName.antt =====
-- crates/evaluator/src/builds.rs, `dependency_job_name`: the name of the job of a derivation.
use Prim.Native.Char.{code}
use circus.Common.{
  Bool, true, false, ◌&&◌, List, [], ◌∷◌, Option, none, some, String, str_eq, str_append, codes,
  Bytes, ◌==◌, if◌then◌else◌,
}

-- `Path::file_name`: the last component of a path that is not empty or `.`, unless it is `..`.
abbrev onto_first : String → List String → List String
onto_first c [] = c ∷ []
onto_first c (p ∷ ps) = str_append c p ∷ ps

abbrev components : String → List String
components String.[] = "" ∷ []
components (String.◌∷◌ c s) =
    let rest = components s in
    if code c == 47 then "" ∷ rest else onto_first (String.◌∷◌ c String.[]) rest

abbrev last_component : Option String → List String → Option String
last_component found [] = found
last_component found (p ∷ ps) =
    let same = last_component found ps in
    let next = last_component (some p) ps in
    if str_eq p "" then same else if str_eq p "." then same else next

abbrev file_name : String → Option String
file_name path = elim (last_component none (components path)) [
  | none ↦ none
  | some name ↦ if str_eq name ".." then none else some name
]

-- `trim_end_matches(".drv")`: what stands before the longest end that repeats the suffix.
abbrev repeats_drv : Bytes → Bool
repeats_drv [] = true
repeats_drv (a ∷ b ∷ c ∷ d ∷ s) =
    let rest = repeats_drv s in a == 46 && b == 100 && c == 114 && d == 118 && rest
repeats_drv _ = false

abbrev trim_drv : String → String
trim_drv String.[] = ""
trim_drv (String.◌∷◌ c s) =
    let rest = trim_drv s in if repeats_drv (code c ∷ codes s) then "" else String.◌∷◌ c rest

abbrev pub dependency_job_prefix : String
dependency_job_prefix = "drv:"

unfoldable pub dependency_job_name : String → String
dependency_job_name drv_path =
    let basename = trim_drv (elim (file_name drv_path) [ none ↦ drv_path | some name ↦ name ]) in
    str_append dependency_job_prefix basename
