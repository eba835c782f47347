-- ===== src/Worker/Features.antt =====
-- crates/queue-runner/src/features.rs: the features that a build is scheduled on. What nix says will be
-- built, and the features of those derivations (`compute`), is an answer.
pub mod Floor
use circus.Common.{
  ℕ, Bool, true, false, List, [], ◌∷◌, ◌++◌, Option, none, some, String, str_eq, Bytes, codes,
  Result, ok, err, ltb, ◌==◌, if◌then◌else◌,
}
use circus.Models.Rows.{Build}
use circus.Builds.{Table, set_effective_features}

-- The order of `String`, by the code points, which is that of the bytes of UTF-8.
abbrev text_before : Bytes → Bytes → Bool
text_before [] [] = false
text_before [] (b ∷ t) = true
text_before (a ∷ s) [] = false
text_before (a ∷ s) (b ∷ t) =
    let rest = text_before s t in if ltb a b then true else if a == b then rest else false

-- A `BTreeSet`, listed in its order.
unfoldable pub insert_text : String → List String → List String
insert_text s [] = s ∷ []
insert_text s (t ∷ ts) =
    let rest = insert_text s ts in
    if str_eq s t then t ∷ ts else if text_before (codes s) (codes t) then s ∷ t ∷ ts else t ∷ rest

unfoldable pub collect_set : List String → List String
unfolding insert_text
collect_set [] = []
collect_set (s ∷ ss) = insert_text s (collect_set ss)

unfoldable pub with_required_floor : List String → List String → List String
unfolding collect_set
with_required_floor computed required = collect_set (computed ++ required)

pub record Ensured : Type 0 where
  pub build : Build
  pub table : Table

-- The row is updated if the query answers; the build that goes on has the features either way.
unfoldable pub ensure_effective_features :
    Result {0, 0} String (List String) → Bool → Build → Table → Ensured
unfolding with_required_floor set_effective_features
ensure_effective_features computed persists build t = elim build.effective_features [
  | some features ↦ record { build = build; table = t }
  | none ↦ elim computed [
    | ok features ↦
        let floored = with_required_floor features build.required_features in
        record {
          build = record build { effective_features = some floored };
          table = if persists then set_effective_features build.id floored t else t;
        }
    | err e ↦ record { build = build; table = t }
  ]
]
