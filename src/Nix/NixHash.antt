-- ===== src/Nix/NixHash.antt =====
-- crates/nix/src/store.rs, `NixHash`, and base32.rs, `is_base32_byte`.
use circus.Common.{
  ℕ, Bool, true, not, ◌&&◌, ◌||◌, ◌≡◌, ◌↔◌, refl, [], ◌∷◌, Bytes, codes, Result, ok, err, leb, ◌==◌,
  if◌then◌else◌, length, all, In, All, arith, &&-eq-true,
}

-- `ALPHABET`.
abbrev pub alphabet : Bytes
alphabet = codes "0123456789abcdfghijklmnpqrsvwxyz"

-- The arms of the `matches!`, the consecutive letters as ranges.
unfoldable pub is_base32_byte : ℕ → Bool
is_base32_byte c =
    (leb b'0' c && leb c b'9')
    || (leb b'a' c && leb c b'd')
    || (leb b'f' c && leb c b'n')
    || (leb b'p' c && leb c b's')
    || (leb b'v' c && leb c b'z')

unfoldable pub is_valid : Bytes → Bool
is_valid hash = length hash == 32 && all is_base32_byte hash

-- The message is constant.
pub data NixHashError : Type 0 where
  invalid_nix_hash : NixHashError

unfoldable pub parse : Bytes → Result NixHashError Bytes
parse hash = if not (is_valid hash) then err invalid_nix_hash else ok hash

base32_byte_iff : (c : ℕ) → (is_base32_byte c ≡ true) ↔ In c alphabet
unfolding is_base32_byte
base32_byte_iff c = ground arith

all-base32 : (s : Bytes) → (all is_base32_byte s ≡ true) ↔ All (λ c. In c alphabet) s
all-base32 [] = (λ h. tt, λ h. refl)
all-base32 (c ∷ s) =
    let (both, back) = &&-eq-true (is_base32_byte c) (all is_base32_byte s) in
    let (sound, complete) = base32_byte_iff c in
    let (sounds, completes) = all-base32 s in
    (λ h. let (a, b) = both h in (sound a, sounds b), λ (a, b). back (complete a, completes b))

-- `NixHash::parse` accepts a text, and keeps it as it is, exactly when it has 32 bytes, each of which
-- stands in the alphabet of the encoder.
parse_iff_alphabet :
    (hash h : Bytes)
    → (parse hash ≡ ok h) ↔ ((hash ≡ h) × (length hash ≡ 32) × All (λ c. In c alphabet) hash)
unfolding parse is_valid
parse_iff_alphabet hash h =
    let (sounds, completes) = all-base32 hash in
    (
      λ e. (ground (arith, e), ground (arith, e), sounds (ground (arith, e))),
      λ (e, n, every). ground (arith, e, n, completes every),
    )
