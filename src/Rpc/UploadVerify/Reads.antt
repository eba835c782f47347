-- ===== src/Rpc/UploadVerify/Reads.antt =====
-- crates/queue-runner/src/rpc/upload_verify.rs: what the loop over the reads has hashed when it ends.
use circus.Common.{
  ℕ, ◌+◌, ◌%◌, ◌^◌, ◌≤◌, ◌<◌, ◌≡◌, inl, inr, refl, ap, sym, ◌∙◌, subst, List, [], ◌∷◌, ◌++◌, some,
  Bytes, arith, ok, ltb, length, length-append, append_assoc, append_nil, Option-cases, Bool-cases,
  List-cases,
}
use circus.Rpc.LogSink.{saturating_add, max_u64}
use circus.Rpc.UploadVerify.{Read, Verified, hash_file, read_all}

-- The reads deliver a file and the archive in it: no read fails, and an empty one is the end.
pub data Delivers : List Read → Bytes → Bytes → Type 0 where
  at_end : Delivers [] [] []
  empty_read :
      (r : Read) (reads : List Read) → r.answer ≡ some [] → Delivers (r ∷ reads) r.pulled []
  more :
      (r : Read) (reads : List Read) (b : ℕ) (bs file nar : Bytes)
      → r.answer ≡ some (b ∷ bs)
      → Delivers reads file nar
      → Delivers (r ∷ reads) (r.pulled ++ file) ((b ∷ bs) ++ nar)

pub record Adds (declared : ℕ) (file nar : Bytes) (v v' : Verified) : Type 0 where
  pub file_too : v'.file ≡ v.file ++ file
  pub nar_too : v'.nar ≡ v.nar ++ nar
  pub sized : v'.nar_size ≡ v.nar_size + length nar
  pub within : v'.nar_size ≤ declared
  pub counted : v'.file_size ≡ (v.file_size + length file) % 2 ^ 64

nothing-Adds :
    (declared : ℕ) (v : Verified)
    → v.nar_size ≤ declared
    → v.file_size < 2 ^ 64
    → Adds declared [] [] v v
nothing-Adds declared v le small = record {
  file_too = sym (append_nil v.file);
  nar_too = sym (append_nil v.nar);
  sized = omega arith;
  within = le;
  counted = omega (arith, small);
}

file-Adds :
    (declared : ℕ) (pulled : Bytes) (v : Verified)
    → v.nar_size ≤ declared
    → Adds declared pulled [] v (hash_file pulled v)
file-Adds declared pulled v le = record {
  file_too = refl;
  nar_too = sym (append_nil v.nar);
  sized = omega arith;
  within = le;
  counted = refl;
}

abbrev next : Read → Bytes → Verified → Verified
next r chunk v = record (hash_file r.pulled v) {
  nar = v.nar ++ chunk;
  nar_size = saturating_add v.nar_size (length chunk);
}

more-Adds :
    (declared : ℕ) (r : Read) (chunk file nar : Bytes) (v v' : Verified)
    → declared < max_u64
    → saturating_add v.nar_size (length chunk) ≤ declared
    → Adds declared file nar (next r chunk v) v'
    → Adds declared (r.pulled ++ file) (chunk ++ nar) v v'
more-Adds declared r chunk file nar v v' small le a = record {
  file_too = a.file_too ∙ append_assoc v.file r.pulled file;
  nar_too = a.nar_too ∙ append_assoc v.nar chunk nar;
  sized = ground (arith, a.sized, le, small, length-append chunk nar);
  within = a.within;
  counted = omega (arith, a.counted, length-append r.pulled file);
}

pub read_all_sound :
    (declared : ℕ) (reads : List Read) (v v' : Verified)
    → declared < max_u64
    → v.nar_size ≤ declared
    → v.file_size < 2 ^ 64
    → read_all declared reads v ≡ ok v'
    → (file : Bytes) × (nar : Bytes) × Delivers reads file nar × Adds declared file nar v v'
unfolding read_all
read_all_sound declared [] v v' small le counted h =
    let same : v ≡ v' = ground (arith, h) in
    ([], [], at_end, subst (Adds declared [] [] v) same (nothing-Adds declared v le counted))
read_all_sound declared (r ∷ reads) v v' small le counted h = elim (Option-cases r.answer) [
  | inl n ↦ absurd (ground (arith, n, h))
  | inr (chunk, k) ↦ elim (List-cases chunk) [
    | inl e ↦
        let empty : r.answer ≡ some [] = k ∙ ap some e in
        let same : hash_file r.pulled v ≡ v' = ground (arith, empty, h) in
        (
          r.pulled,
          [],
          empty_read r reads empty,
          subst (Adds declared r.pulled [] v) same (file-Adds declared r.pulled v le),
        )
    | inr (b, bs, e) ↦
        let full : r.answer ≡ some (b ∷ bs) = k ∙ ap some e in
        elim (Bool-cases (ltb declared (saturating_add v.nar_size (length (b ∷ bs))))) [
          | inl over ↦ absurd (ground (arith, full, over, h))
          | inr fits ↦
              let rest : read_all declared reads (next r (b ∷ bs) v) ≡ ok v' =
                ground (arith, full, fits, h) in
              let (file, nar, d, a) =
                read_all_sound declared reads (next r (b ∷ bs) v) v' small (ground (arith, fits))
                  (omega arith) rest in
              (
                r.pulled ++ file,
                (b ∷ bs) ++ nar,
                more r reads b bs file nar full d,
                more-Adds declared r (b ∷ bs) file nar v v' small (ground (arith, fits)) a,
              )
        ]
  ]
]

pub read_all_complete :
    (declared : ℕ) (reads : List Read) (file nar : Bytes) (v : Verified)
    → declared < max_u64
    → v.nar_size + length nar ≤ declared
    → v.file_size < 2 ^ 64
    → Delivers reads file nar
    → (v' : Verified) × (read_all declared reads v ≡ ok v') × Adds declared file nar v v'
unfolding read_all
read_all_complete declared _ _ _ v small le counted at_end =
    (v, refl, nothing-Adds declared v (omega (arith, le)) counted)
read_all_complete declared _ _ _ v small le counted (empty_read r reads e) =
    (hash_file r.pulled v, ground (arith, e), file-Adds declared r.pulled v (omega (arith, le)))
read_all_complete declared _ _ _ v small le counted (more r reads b bs file nar e d) =
    let fits : saturating_add v.nar_size (length (b ∷ bs)) + length nar ≤ declared =
      ground (arith, le, small, length-append (b ∷ bs) nar) in
    let (v', rest, a) =
      read_all_complete declared reads file nar (next r (b ∷ bs) v) small fits (omega arith) d in
    (
      v',
      ground (arith, e, rest, fits),
      more-Adds declared r (b ∷ bs) file nar v v' small (omega (arith, fits)) a,
    )
