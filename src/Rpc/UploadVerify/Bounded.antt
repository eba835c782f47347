-- ===== src/Rpc/UploadVerify/Bounded.antt =====
-- crates/queue-runner/src/rpc/upload_verify.rs: how much of an upload is decompressed.
use circus.Common.{
  ℕ, ◌+◌, ◌*◌, ◌≤◌, ◌<◌, ◌≡◌, List, [], ◌∷◌, ◌++◌, inl, inr, ok, err, Option, none, some, Bytes,
  arith, ltb, length, All, Option-cases, List-cases, Bool-cases, ap, ◌∙◌,
}
use circus.Rpc.LogSink.{saturating_add}
use circus.Rpc.UploadVerify.{exceeds_declared_size, Read, Verified, hash_file, read_all}

-- The bytes that a read answers.
abbrev pub chunk_size : Option Bytes → ℕ
chunk_size none = 0
chunk_size (some chunk) = length chunk

-- `buf` holds 128 KiB.
abbrev pub buffer : ℕ
buffer = 128 * 1024

abbrev pub FitsBuffer : Read → Type 0
FitsBuffer r = chunk_size r.answer ≤ buffer

-- The loop never goes on above the declared size: if it ends well, it has hashed no more than that, and
-- if it ends for the size, the size passed the declared one with the last read, by one buffer at most.
pub read_all_bounded :
    (declared : ℕ) (reads : List Read) (v : Verified)
    → v.nar_size ≤ declared
    → All FitsBuffer reads
    → ((v' : Verified) → read_all declared reads v ≡ ok v' → v'.nar_size ≤ declared)
      × ((n : ℕ)
          → read_all declared reads v ≡ err (exceeds_declared_size n)
          → (declared < n) × (n ≤ declared + buffer))
unfolding read_all
read_all_bounded declared [] v le h =
    (λ v' e. ground (arith, e, le), λ n e. absurd (ground (arith, e)))
read_all_bounded declared (r ∷ reads) v le (here, rest) = elim (Option-cases r.answer) [
  | inl none_left ↦
      (λ v' e. absurd (ground (arith, none_left, e)), λ n e. absurd (ground (arith, none_left, e)))
  | inr (chunk, k) ↦ elim (List-cases chunk) [
    | inl c ↦
        let empty : r.answer ≡ some [] = k ∙ ap some c in
        (λ v' e. ground (arith, empty, e, le), λ n e. absurd (ground (arith, empty, e)))
    | inr (b, bs, c) ↦
        let full : r.answer ≡ some (b ∷ bs) = k ∙ ap some c in
        let next = record (hash_file r.pulled v) {
          nar = v.nar ++ (b ∷ bs);
          nar_size = saturating_add v.nar_size (length (b ∷ bs));
        } in
        elim (Bool-cases (ltb declared (saturating_add v.nar_size (length (b ∷ bs))))) [
          | inl over ↦ (
            λ v' e. absurd (ground (arith, full, over, e)),
            λ n e. (ground (arith, full, over, e), ground (arith, full, over, e, here, le)),
          )
          | inr fits ↦
              let (good, bad) = read_all_bounded declared reads next (ground (arith, fits)) rest in
              (
                λ v' e. good v' (ground (arith, full, fits, e)),
                λ n e. bad n (ground (arith, full, fits, e)),
              )
        ]
  ]
]
