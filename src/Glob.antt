-- ===== src/Glob.antt =====
-- crates/common/src/glob.rs: `glob_matches`, the patterns of branch and tag filters.
pub mod Meaning
use circus.Common.{ℕ, Bool, true, false, ◌&&◌, ◌||◌, [], ◌∷◌, Bytes, ◌==◌, if◌then◌else◌}

-- What the first byte of a pattern asks for.
pub data Kind : Type 0 where
  run single literal : Kind

abbrev pub kind : ℕ → Kind
kind c = if c == b'*' then run else if c == b'?' then single else literal

-- `inner`, whose arms are tried in order.
unfoldable pub inner : Bytes → Bytes → Bool
inner [] [] = true
inner [] (v ∷ value) = false
inner (c ∷ rest) [] = elim (kind c) [ run ↦ inner rest [] | single ↦ false | literal ↦ false ]
inner (c ∷ rest) (v ∷ value) = elim (kind c) [
  | run ↦ inner rest (v ∷ value) || inner (c ∷ rest) value
  | single ↦ inner rest value
  | literal ↦ v == c && inner rest value
]

unfoldable pub glob_matches : Bytes → Bytes → Bool
unfolding inner
glob_matches pattern value = inner pattern value
