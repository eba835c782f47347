-- ===== src/Nix/Base32/Errors.antt =====
-- crates/nix/src/base32.rs, `decode_sha256`: which texts are refused.
use circus.Common.{
  ℕ, ◌≡◌, ◌↔◌, inl, inr, refl, [], ◌∷◌, none, some, Bytes, arith, ok, length, In, All, ◌==◌,
  Option-cases, Bool-cases, replicate,
}
use circus.Nix.NixHash.{alphabet}
use circus.Nix.Base32.{position, put_digit, decode_from, decode_sha256}

position-none : (c : ℕ) (bs : Bytes) → position c bs ≡ none → In c bs → ⊥
position-none c [] h m = m
position-none c (b ∷ bs) h m = ground (arith, h, m, position-none c bs)

position-some : (c i : ℕ) (bs : Bytes) → position c bs ≡ some i → In c bs
position-some c i [] h = cc
position-some c i (b ∷ bs) h = elim (Bool-cases (b == c)) [
  | inl e ↦ inl (ground (arith, e))
  | inr e ↦ elim (Option-cases (position c bs)) [
    | inl n ↦ absurd (ground (arith, e, n, h))
    | inr (j, k) ↦ inr (position-some c j bs k)
  ]
]

decode_from_iff :
    (text out : Bytes)
    → ((bytes : Bytes) × (decode_from text out ≡ ok bytes)) ↔ All (λ c. In c alphabet) text
unfolding decode_from
decode_from_iff [] out = (λ h. tt, λ h. (out, refl))
decode_from_iff (c ∷ text) out = elim (Option-cases (position c alphabet)) [
  | inl n ↦ (
    λ (bytes, h). absurd (ground (arith, n, h)),
    λ (m, ms). absurd (position-none c alphabet n m),
  )
  | inr (value, k) ↦
      let (sound, complete) = decode_from_iff text (put_digit (length text) value out) in
      (
        λ (bytes, h). (position-some c value alphabet k, sound (bytes, ground (arith, k, h))),
        λ (m, ms). let (bytes, h) = complete ms in (bytes, ground (arith, k, h)),
      )
]

-- The decoder accepts exactly the texts of 52 characters of the alphabet.
pub decode_sha256_iff :
    (text : Bytes)
    → ((bytes : Bytes) × (decode_sha256 text ≡ ok bytes))
      ↔ ((length text ≡ 52) × All (λ c. In c alphabet) text)
unfolding decode_sha256
decode_sha256_iff text =
    let (sound, complete) = decode_from_iff text (replicate 32 0) in
    elim (Bool-cases (length text == 52)) [
      | inl e ↦ (
        λ (bytes, h). (ground (arith, e), sound (bytes, ground (arith, e, h))),
        λ (l, m). let (bytes, h) = complete m in (bytes, ground (arith, e, h)),
      )
      | inr e ↦
          (λ (bytes, h). absurd (ground (arith, e, h)), λ (l, m). absurd (ground (arith, e, l)))
    ]
