-- ===== src/Nix/StorePath.antt =====
-- crates/nix/src/store.rs, `StorePath`.
pub mod Valid
use circus.Common.{
  ℕ, Bool, not, ◌&&◌, [], ◌∷◌, ◌++◌, Bytes, codes, Result, ok, err, ltb, ◌==◌, if◌then◌else◌,
  length,
}
use circus.Common.Strings.{starts_with, contains_text}

abbrev pub slash : ℕ
slash = b'/'

-- `trim_end_matches('/')`: a slash is dropped if nothing is left behind it.
abbrev pub unless_last : ℕ → Bytes → Bytes
unless_last c [] = if c == slash then [] else c ∷ []
unless_last c (d ∷ t) = c ∷ d ∷ t

unfoldable pub trim_end_slashes : Bytes → Bytes
trim_end_slashes [] = []
trim_end_slashes (c ∷ s) = unless_last c (trim_end_slashes s)

abbrev pub dots : Bytes
dots = codes ".."

unfoldable pub is_valid : Bytes → Bytes → Bool
is_valid path store_dir =
    starts_with (trim_end_slashes store_dir ++ (slash ∷ [])) path
    && not (contains_text dots path)
    && ltb (length path) 512

-- The message, which names the directory, is left out.
pub data StorePathError : Type 0 where
  invalid_store_path : Bytes → StorePathError

unfoldable pub parse : Bytes → Bytes → Result StorePathError Bytes
parse path store_dir =
    if not (is_valid path store_dir) then err (invalid_store_path store_dir) else ok path
