-- ===== src/Rpc/UploadVerify.antt =====
-- crates/queue-runner/src/rpc/upload_verify.rs: the check of an uploaded archive against what the agent
-- declared. SHA-256, hexadecimal and base 64 are those of third-party crates and parameters; the reads of
-- the decompressed stream, with the bytes that each takes from the download, are answers.
pub mod Reads
pub mod Genuine
pub mod Bounded
use circus.Common.{
  ℕ, zero, suc, ◌+◌, ◌-◌, ◌%◌, ◌^◌, min, Bool, true, false, not, ◌&&◌, ◌||◌, List, [], ◌∷◌, ◌++◌,
  Option, none, some, Bytes, codes, Result, ok, err, ◌>>=◌, ◌>>◌, guard, ltb, leb, ◌==◌,
  if◌then◌else◌, length, all, any,
}
use circus.Common.Strings.{strip_prefix, bytes_eq}
use circus.Rpc.LogSink.{saturating_add}
use circus.Nix.Base32.{encode_sha256, decode_sha256}

pub record UploadedNar : Type 0 where
  pub nar_hash : Bytes
  pub nar_size : ℕ
  pub file_hash : Bytes
  pub file_size : ℕ

pub record VerifyRequest : Type 0 where
  pub get_url : Bytes
  pub compression : Bytes
  pub nar_hash : Bytes
  pub nar_size : ℕ
  pub file_hash : Option Bytes
  pub file_size : Option ℕ

pub data VerifyError : Type 0 where
  get_failed : Bytes → VerifyError
  unsupported_compression : Bytes → VerifyError
  read_failed : VerifyError
  exceeds_declared_size : ℕ → VerifyError
  unsupported_hash : Bytes → VerifyError
  file_hash_mismatch : VerifyError
  file_size_mismatch : VerifyError
  nar_size_mismatch : VerifyError
  nar_hash_mismatch : VerifyError

-- The crates `sha2`, `hex` and `base64`.
pub record Crates : Type 0 where
  pub sha256 : Bytes → Bytes
  pub hex_encode : Bytes → Bytes
  pub hex_decode : Bytes → Option Bytes
  pub base64_decode : Bytes → Option Bytes

-- One `read`: what the hashing reader below is asked for, and what the decompressor answers.
pub record Read : Type 0 where
  pub pulled : Bytes
  pub answer : Option Bytes

-- `redact_url_query`.
abbrev before_query : Bytes → Option Bytes
before_query [] = none
before_query (c ∷ s) =
    let rest = before_query s in
    if c == 63 then some [] else elim rest [ none ↦ none | some t ↦ some (c ∷ t) ]

unfoldable pub redact_url_query : Bytes → Bytes
redact_url_query url = elim (before_query url) [
  | none ↦ url
  | some start ↦ start ++ codes "?<redacted>"
]

abbrev is_hex_digit : ℕ → Bool
is_hex_digit c =
    (leb b'0' c && leb c b'9') || (leb b'a' c && leb c b'f') || (leb b'A' c && leb c b'F')

-- `while padded.len() % 4 != 0`: at most three rounds.
abbrev pad : ℕ → Bytes → Bytes
pad zero s = s
pad (suc rounds) s = let more = pad rounds (s ++ (61 ∷ [])) in if length s % 4 == 0 then s else more

module _ (crates : Crates) where
  abbrev ok_or : {A : Type 0} → VerifyError → Option A → Result VerifyError A
  ok_or e none = err e
  ok_or e (some a) = ok a

  abbrev pub parse_sri : Bytes → Bytes → Result VerifyError Bytes
  parse_sri text sri = do
    bytes ← ok_or (unsupported_hash text) (crates.base64_decode (pad 3 sri))
    guard (length bytes == 32) (unsupported_hash text)
    ok bytes

  abbrev pub parse_base32 : Bytes → Bytes → Result VerifyError Bytes
  parse_base32 text nix32 = elim (decode_sha256 nix32) [
    | ok bytes ↦ ok bytes
    | err e ↦ err (unsupported_hash text)
  ]

  abbrev pub parse_colon : Bytes → Bytes → Result VerifyError Bytes
  parse_colon text rest =
      if length rest == 64 && all is_hex_digit rest
      then ok_or (unsupported_hash text) (crates.hex_decode rest)
      else parse_base32 text rest

  unfoldable pub parse_sha256_hash : Bytes → Result VerifyError Bytes
  unfolding strip_prefix decode_sha256
  parse_sha256_hash text = elim (strip_prefix (codes "sha256-") text) [
    | some sri ↦ parse_sri text sri
    | none ↦ elim (strip_prefix (codes "sha256:") text) [
      | some rest ↦ parse_colon text rest
      | none ↦ err (unsupported_hash text)
    ]
  ]

  unfoldable pub hash_matches : Bytes → Bytes → Result VerifyError Bool
  unfolding parse_sha256_hash
  hash_matches text computed = do expected ← parse_sha256_hash text; ok (bytes_eq expected computed)

abbrev pub is_supported : Bytes → Bool
is_supported compression =
    any (bytes_eq compression)
      (codes "zstd" ∷ codes "xz" ∷ codes "gzip" ∷ codes "gz" ∷ codes "none" ∷ [] ∷ [])

-- What the hashers were given, and the counters.
pub record Verified : Type 0 where
  pub file : Bytes
  pub file_size : ℕ
  pub nar : Bytes
  pub nar_size : ℕ

abbrev pub nothing_read : Verified
nothing_read = record { file = []; file_size = 0; nar = []; nar_size = 0 }

-- `HashingReader::poll_read`; `fetch_add` wraps.
abbrev pub hash_file : Bytes → Verified → Verified
hash_file pulled v = record v {
  file = v.file ++ pulled;
  file_size = (v.file_size + length pulled) % 2 ^ 64;
}

-- The loop over the reads. After the last of them the reader is at its end.
unfoldable pub read_all : ℕ → List Read → Verified → Result VerifyError Verified
read_all declared [] v = ok v
read_all declared (r ∷ reads) v = elim r.answer [
  | none ↦ err read_failed
  | some [] ↦ ok (hash_file r.pulled v)
  | some (b ∷ bs) ↦
      let size = saturating_add v.nar_size (length (b ∷ bs)) in
      let rest =
        read_all declared reads
          (record (hash_file r.pulled v) { nar = v.nar ++ (b ∷ bs); nar_size = size }) in
      if ltb declared size then err (exceeds_declared_size size) else rest
]

abbrev pub hash_prefix : Bytes
hash_prefix = codes "sha256:"

module _ (crates : Crates) where
  unfoldable pub check_hash : VerifyError → Bytes → Bytes → Result VerifyError (Unit {0})
  unfolding hash_matches
  check_hash e text computed = do same ← hash_matches crates text computed; guard same e

  unfoldable pub check_file_hash : VerifyRequest → Verified → Result VerifyError (Unit {0})
  unfolding check_hash
  check_file_hash req v = elim req.file_hash [
    | none ↦ ok tt
    | some text ↦ check_hash file_hash_mismatch text (crates.sha256 v.file)
  ]

  unfoldable pub check_file_size : VerifyRequest → Verified → Result VerifyError (Unit {0})
  check_file_size req v = elim req.file_size [
    | none ↦ ok tt
    | some size ↦ guard (size == v.file_size) file_size_mismatch
  ]

  unfoldable pub check_nar_size : VerifyRequest → Verified → Result VerifyError (Unit {0})
  check_nar_size req v = guard (req.nar_size == v.nar_size) nar_size_mismatch

  unfoldable pub uploaded : Verified → UploadedNar
  unfolding encode_sha256
  uploaded v = record {
    nar_hash = hash_prefix ++ encode_sha256 (crates.sha256 v.nar);
    nar_size = v.nar_size;
    file_hash = hash_prefix ++ crates.hex_encode (crates.sha256 v.file);
    file_size = v.file_size;
  }

  unfoldable pub check_declared : VerifyRequest → Verified → Result VerifyError UploadedNar
  unfolding check_file_hash check_file_size check_nar_size uploaded
  check_declared req v = do
    check_file_hash req v
    check_file_size req v
    check_nar_size req v
    check_hash nar_hash_mismatch req.nar_hash (crates.sha256 v.nar)
    ok (uploaded v)

  -- Whether the `GET` was answered with success, and the reads of its body.
  unfoldable pub verify : VerifyRequest → Bool → List Read → Result VerifyError UploadedNar
  unfolding read_all check_declared redact_url_query
  verify req responds reads = do
    guard responds (get_failed (redact_url_query req.get_url))
    guard (is_supported req.compression) (unsupported_compression req.compression)
    v ← read_all req.nar_size reads nothing_read
    check_declared req v
