-- ===== src/Nix.antt =====
-- crates/nix/src: texts that are checked before they reach Nix. Texts are lists of their bytes.
pub mod StorePath
pub mod NixHash
pub mod Expression
pub mod Base32
