-- ===== src/Tests/Uploads.antt =====
-- Tests of the check of an upload.
use circus.Common.{
  all, ltb, All, ℕ, ◌+◌, ◌≤◌, ◌<◌, ◌≡◌, ◌↔◌, refl, true, List, [], ◌∷◌, none, some, Bytes, codes,
  replicate, length, ok, err, arith,
}
use circus.Nix.Base32.{encode_sha256, decode_sha256, digit_at, value_at, or_bits, decode_from}
use circus.Nix.Base32.RoundTrip.{decode_sha256-encode_sha256}
use circus.Rpc.UploadVerify.{
  Crates, Read, VerifyRequest, Verified, nothing_read, exceeds_declared_size, read_all, verify,
  is_supported, redact_url_query, uploaded,
}
use circus.Rpc.UploadVerify.Reads.{Delivers}
use circus.Rpc.UploadVerify.Genuine.{IsAsDeclared, verify_iff}
use circus.Rpc.UploadVerify.Bounded.{buffer, read_all_bounded}

abbrev counting : Bytes
counting = codes "0123456789abcdef0123456789abcdef"

-- A digest survives both ways of its text.
digest_returns : decode_sha256 (encode_sha256 counting) ≡ ok counting
unfolding decode_sha256 encode_sha256 digit_at value_at or_bits decode_from
digest_returns = refl

small_bytes : (s : Bytes) → all (λ b. ltb b 256) s ≡ true → All (λ b. b < 256) s
small_bytes [] h = tt
small_bytes (b ∷ s) h = (ground (arith, h), small_bytes s (ground (arith, h)))

decode_sha256-encode_sha256_example : decode_sha256 (encode_sha256 counting) ≡ ok counting
decode_sha256-encode_sha256_example =
    decode_sha256-encode_sha256 counting refl (small_bytes counting refl)

query_is_hidden : redact_url_query (codes "s3/nar?key=1") ≡ codes "s3/nar?<redacted>"
unfolding redact_url_query
query_is_hidden = refl

-- Crates with a digest that tells the length only.
abbrev crates : Crates
crates = record {
  sha256 = λ bytes. replicate 32 (length bytes);
  hex_encode = λ bytes. bytes;
  hex_decode = λ bytes. some bytes;
  base64_decode = λ bytes. some (replicate 32 3);
}

abbrev request : VerifyRequest
request = record {
  get_url = codes "s3/nar";
  compression = codes "xz";
  nar_hash = codes "sha256-x";
  nar_size = 3;
  file_hash = none;
  file_size = some 2;
}

abbrev reads : List Read
reads =
    record { pulled = 9 ∷ 9 ∷ []; answer = some (1 ∷ 2 ∷ []) }
    ∷ record { pulled = []; answer = some (3 ∷ []) }
    ∷ []

abbrev read_back : Verified
read_back = record { file = 9 ∷ 9 ∷ []; file_size = 2; nar = 1 ∷ 2 ∷ 3 ∷ []; nar_size = 3 }

all_read : read_all 3 reads nothing_read ≡ ok read_back
unfolding read_all
all_read = refl

verify_iff_example : (verify crates request true reads ≡ ok (uploaded crates read_back)) ↔ (
    (true ≡ true)
    × (is_supported request.compression ≡ true)
    × ((file : Bytes) × (nar : Bytes) × Delivers reads file nar
        × IsAsDeclared crates request file nar (uploaded crates read_back)))
verify_iff_example = verify_iff crates request reads true (uploaded crates read_back) (omega arith)

read_all_bounded_example :
    ((v' : Verified) → read_all 2 reads nothing_read ≡ ok v' → v'.nar_size ≤ 2)
    × ((n : ℕ)
        → read_all 2 reads nothing_read ≡ err (exceeds_declared_size n)
        → (2 < n) × (n ≤ 2 + buffer))
read_all_bounded_example =
    read_all_bounded 2 reads nothing_read (omega arith) (omega arith, (omega arith, tt))
