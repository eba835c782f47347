-- ===== src/Rpc/UploadVerify/Genuine.antt =====
-- crates/queue-runner/src/rpc/upload_verify.rs: which uploads are accepted.
use circus.Common.{
  ℕ, ◌%◌, ◌^◌, ◌<◌, ◌≡◌, ◌↔◌, inl, inr, refl, ap, sym, ◌∙◌, subst, Bool, true, List, ◌++◌, ◌>>◌,
  ◌>>=◌, guard, some, Bytes, arith, Result, ok, err, length, Option-cases, some_inj, Result-cases,
}
use circus.Common.Strings.{bytes_eq_iff}
use circus.Rpc.LogSink.{max_u64}
use circus.Nix.Base32.{encode_sha256}
use circus.Rpc.UploadVerify.{
  UploadedNar, VerifyRequest, VerifyError, get_failed, unsupported_compression, redact_url_query,
  file_hash_mismatch, nar_hash_mismatch, Crates, Read, Verified, nothing_read, read_all,
  parse_sha256_hash, hash_matches, is_supported, check_hash, check_declared, hash_prefix,
  check_file_hash, check_file_size, check_nar_size, uploaded, verify,
}
use circus.Rpc.UploadVerify.Reads.{Delivers, Adds, read_all_sound, read_all_complete}

>>-eq-ok :
    {B : Type 0} (m : Result {0, 0} VerifyError Unit) (k : Result {0, 0} VerifyError B) {b : B}
    → (m >> k) ≡ ok b
    → (m ≡ ok tt) × (k ≡ ok b)
>>-eq-ok (ok tt) k h = (refl, h)
>>-eq-ok (err e) k h = absurd (ground (arith, h))

ok_inj : {A : Type 0} {a b : A} → ◌≡◌ {A = Result VerifyError A} (ok a) (ok b) → a ≡ b
ok_inj e = cc

>>=-eq-ok :
    {A B : Type 0} (m : Result VerifyError A) (k : A → Result VerifyError B) {b : B}
    → (m >>= k) ≡ ok b
    → (a : A) × (m ≡ ok a) × (k a ≡ ok b)
>>=-eq-ok (ok a) k h = (a, refl, h)
>>=-eq-ok (err e) k h = absurd (ground (arith, h))

guard-eq-ok : (b : Bool) (e : VerifyError) → guard b e ≡ ok tt → b ≡ true
guard-eq-ok b e h = ground (arith, h)

all_pass :
    {B : Type 0} (a b c d : Result {0, 0} VerifyError Unit) {k : Result {0, 0} VerifyError B}
    → a ≡ ok tt
    → b ≡ ok tt
    → c ≡ ok tt
    → d ≡ ok tt
    → (a >> (b >> (c >> (d >> k)))) ≡ k
all_pass a b c d p q r s = cc

module _ (crates : Crates) (req : VerifyRequest) where
  -- A text spells the digest of some bytes.
  abbrev pub Spells : Bytes → Bytes → Type 0
  Spells text bytes = parse_sha256_hash crates text ≡ ok (crates.sha256 bytes)

  abbrev pub accepted : Bytes → Bytes → UploadedNar
  accepted file nar = record {
    nar_hash = hash_prefix ++ encode_sha256 (crates.sha256 nar);
    nar_size = req.nar_size;
    file_hash = hash_prefix ++ crates.hex_encode (crates.sha256 file);
    file_size = length file % 2 ^ 64;
  }

  -- What was declared holds, and the answer says so in the form that Nix reads.
  pub record IsAsDeclared (file nar : Bytes) (out : UploadedNar) : Type 0 where
    pub declared_file_hash : (text : Bytes) → req.file_hash ≡ some text → Spells text file
    pub declared_file_size : (n : ℕ) → req.file_size ≡ some n → n ≡ length file % 2 ^ 64
    pub declared_nar_size : length nar ≡ req.nar_size
    pub declared_nar_hash : Spells req.nar_hash nar
    pub answered : out ≡ accepted file nar

  check_hash_iff :
      (e : VerifyError) (text bytes : Bytes)
      → (check_hash crates e text (crates.sha256 bytes) ≡ ok tt) ↔ Spells text bytes
  unfolding check_hash hash_matches
  check_hash_iff e text bytes = elim (Result-cases (parse_sha256_hash crates text)) [
    | inr (f, k) ↦ (λ h. ground (arith, k, h), λ h. ground (arith, k, h))
    | inl (digest, k) ↦ ground (arith, k, bytes_eq_iff digest (crates.sha256 bytes))
  ]

  file_hash_iff :
      (v : Verified) (file : Bytes)
      → v.file ≡ file
      → (check_file_hash crates req v ≡ ok tt)
        ↔ ((text : Bytes) → req.file_hash ≡ some text → Spells text file)
  unfolding check_file_hash
  file_hash_iff v file same = elim (Option-cases req.file_hash) [
    | inl n ↦ (λ h text e. absurd (ground (arith, n, e)), λ h. ground (arith, n))
    | inr (text, k) ↦
        let (sound, complete) = check_hash_iff file_hash_mismatch text file in
        (
          λ h other e.
              subst (λ t. Spells t file) (some_inj (sym k ∙ e))
                (sound (ground (arith, k, h, same))),
          λ h. let c = complete (h text k) in ground (arith, k, c, same),
        )
  ]

  file_size_iff :
      (v : Verified) (size : ℕ)
      → v.file_size ≡ size
      → (check_file_size crates req v ≡ ok tt) ↔ ((n : ℕ) → req.file_size ≡ some n → n ≡ size)
  unfolding check_file_size
  file_size_iff v size same = elim (Option-cases req.file_size) [
    | inl n ↦ (λ h m e. absurd (ground (arith, n, e)), λ h. ground (arith, n))
    | inr (m, k) ↦ (
      λ h other e. ground (arith, k, h, e, same),
      λ h. let c = h m k in ground (arith, k, c, same),
    )
  ]

  nar_size_iff :
      (v : Verified) → (check_nar_size crates req v ≡ ok tt) ↔ (v.nar_size ≡ req.nar_size)
  unfolding check_nar_size
  nar_size_iff v = ground arith

  counted_all :
      (v : Verified) (file nar : Bytes)
      → Adds req.nar_size file nar nothing_read v
      → v.file_size ≡ length file % 2 ^ 64
  counted_all v file nar a = omega (arith, a.counted)

  sized_all :
      (v : Verified) (file nar : Bytes)
      → Adds req.nar_size file nar nothing_read v
      → v.nar_size ≡ length nar
  sized_all v file nar a = omega (arith, a.sized)

  uploaded-eq-accepted :
      (v : Verified) (file nar : Bytes)
      → Adds req.nar_size file nar nothing_read v
      → v.nar_size ≡ req.nar_size
      → uploaded crates v ≡ accepted file nar
  unfolding uploaded
  uploaded-eq-accepted v file nar a size =
      cc (a.file_too, a.nar_too, size, counted_all v file nar a)

  check_declared_sound :
      (v : Verified) (file nar : Bytes) (out : UploadedNar)
      → Adds req.nar_size file nar nothing_read v
      → check_declared crates req v ≡ ok out
      → IsAsDeclared file nar out
  unfolding check_declared
  check_declared_sound v file nar out a h =
      let check_nar = check_hash crates nar_hash_mismatch req.nar_hash (crates.sha256 v.nar) in
      let last = check_nar >> ok (uploaded crates v) in
      let sized = check_nar_size crates req v >> last in
      let (hash, h1) =
        >>-eq-ok (check_file_hash crates req v) (check_file_size crates req v >> sized) h in
      let (size, h2) = >>-eq-ok (check_file_size crates req v) sized h1 in
      let (nar_size, h3) = >>-eq-ok (check_nar_size crates req v) last h2 in
      let (nar_hash, h4) = >>-eq-ok check_nar (ok (uploaded crates v)) h3 in
      let fits = (nar_size_iff v).0 nar_size in
      let same =
        subst (λ x. check_hash crates nar_hash_mismatch req.nar_hash (crates.sha256 x) ≡ ok tt)
          a.nar_too nar_hash in
      record {
        declared_file_hash = (file_hash_iff v file a.file_too).0 hash;
        declared_file_size = (file_size_iff v _ (counted_all v file nar a)).0 size;
        declared_nar_size = sym (sized_all v file nar a) ∙ fits;
        declared_nar_hash = (check_hash_iff nar_hash_mismatch req.nar_hash nar).0 same;
        answered = sym (ok_inj h4) ∙ uploaded-eq-accepted v file nar a fits;
      }

  check_declared_complete :
      (v : Verified) (file nar : Bytes) (out : UploadedNar)
      → Adds req.nar_size file nar nothing_read v
      → IsAsDeclared file nar out
      → check_declared crates req v ≡ ok out
  unfolding check_declared
  check_declared_complete v file nar out a d =
      let fits = sized_all v file nar a ∙ d.declared_nar_size in
      let hash = (file_hash_iff v file a.file_too).1 d.declared_file_hash in
      let size = (file_size_iff v _ (counted_all v file nar a)).1 d.declared_file_size in
      let nar_size = (nar_size_iff v).1 fits in
      let same =
        subst (λ x. check_hash crates nar_hash_mismatch req.nar_hash (crates.sha256 x) ≡ ok tt)
          (sym a.nar_too)
          ((check_hash_iff nar_hash_mismatch req.nar_hash nar).1 d.declared_nar_hash) in
      all_pass (check_file_hash crates req v) (check_file_size crates req v)
        (check_nar_size crates req v) _ hash size nar_size same
      ∙ ap ok (uploaded-eq-accepted v file nar a fits ∙ sym d.answered)

  -- An upload is accepted exactly if its download is answered, its compression is known, and its reads
  -- deliver a file and an archive in it for which everything that was declared holds: the size and the
  -- digest of the archive, and those of the file where they are declared. The archive is smaller than
  -- the largest `u64`.
  pub verify_iff :
      (reads : List Read) (responds : Bool) (out : UploadedNar)
      → req.nar_size < max_u64
      → (verify crates req responds reads ≡ ok out) ↔ (
          (responds ≡ true)
          × (is_supported req.compression ≡ true)
          × ((file : Bytes) × (nar : Bytes) × Delivers reads file nar × IsAsDeclared file nar out))
  unfolding verify
  verify_iff reads responds out small = (
    λ h.
        let known = is_supported req.compression in
        let unknown = unsupported_compression req.compression in
        let failed = get_failed (redact_url_query req.get_url) in
        let read = read_all req.nar_size reads nothing_read in
        let checked = read >>= check_declared crates req in
        let (responded, h1) = >>-eq-ok (guard responds failed) (guard known unknown >> checked) h in
        let (supported, h2) = >>-eq-ok (guard known unknown) checked h1 in
        let (v, e, h3) = >>=-eq-ok read (check_declared crates req) h2 in
        let (file, nar, d, a) =
          read_all_sound req.nar_size reads nothing_read v small (omega arith) (omega arith) e in
        (
          guard-eq-ok responds failed responded,
          guard-eq-ok known unknown supported,
          (file, nar, d, check_declared_sound v file nar out a h3),
        ),
    λ (responded, known, (file, nar, d, declared)).
        let (v, e, a) =
          read_all_complete req.nar_size reads file nar nothing_read small
            (omega (arith, declared.declared_nar_size)) (omega arith) d in
        rw (responded, known, e) (check_declared_complete v file nar out a declared),
  )
