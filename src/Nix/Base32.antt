-- ===== src/Nix/Base32.antt =====
-- crates/nix/src/base32.rs, `encode_sha256` and `decode_sha256`, on digests and texts as lists of bytes.
-- A digest has 32 bytes, so that no index is out of range.
pub mod Errors
pub mod Bits
pub mod RoundTrip
use circus.Common.{
  ℕ, zero, suc, ◌+◌, ◌-◌, ◌*◌, ◌/◌, ◌%◌, ◌^◌, not, ◌&&◌, List, [], ◌∷◌, Option, none, some, Bytes,
  Result, ok, err, ltb, ◌==◌, if◌then◌else◌, length, replicate, ◌>>=◌, ◌>>◌, guard,
}
use circus.Nix.NixHash.{alphabet}

-- `|` of two words of sixteen bits at most.
unfoldable pub or_bits : ℕ → ℕ → ℕ → ℕ
or_bits zero a b = 0
or_bits (suc width) a b = (if a % 2 + b % 2 == 0 then 0 else 1) + 2 * or_bits width (a / 2) (b / 2)

abbrev pub bit_or : ℕ → ℕ → ℕ
bit_or a b = or_bits 16 a b

abbrev pub byte_at : Bytes → ℕ → ℕ
byte_at [] i = 0
byte_at (b ∷ bytes) zero = b
byte_at (b ∷ bytes) (suc i) = byte_at bytes i

-- The five bits from `5 * n`, and their character.
unfoldable pub value_at : Bytes → ℕ → ℕ
unfolding or_bits
value_at bytes n =
    let bit = n * 5 in
    let byte = bit / 8 in
    let offset = bit % 8 in
    let low = byte_at bytes byte / 2 ^ offset in
    let value =
      if ltb (byte + 1) (length bytes)
      then bit_or low (byte_at bytes (byte + 1) * 2 ^ (8 - offset))
      else low in
    value % 32

unfoldable pub digit_at : Bytes → ℕ → ℕ
unfolding value_at
digit_at bytes n = byte_at alphabet (value_at bytes n)

abbrev pub digits : Bytes → ℕ → Bytes
digits bytes zero = []
digits bytes (suc n) = digit_at bytes n ∷ digits bytes n

unfoldable pub encode_sha256 : Bytes → Bytes
unfolding digit_at
encode_sha256 bytes = digits bytes 52

-- The messages name the length and the character.
pub data Base32Error : Type 0 where
  wrong_length : ℕ → Base32Error
  invalid_character : ℕ → Base32Error

abbrev pub position : ℕ → Bytes → Option ℕ
position c [] = none
position c (b ∷ bs) =
    let later = position c bs in
    if b == c then some 0 else elim later [ none ↦ none | some i ↦ some (suc i) ]

-- `out[i] |= v`.
abbrev or_at : ℕ → ℕ → Bytes → Bytes
or_at i v [] = []
or_at zero v (b ∷ out) = bit_or b v ∷ out
or_at (suc i) v (b ∷ out) = b ∷ or_at i v out

abbrev pub put_digit : ℕ → ℕ → Bytes → Bytes
put_digit n value out =
    let bit = n * 5 in
    let byte = bit / 8 in
    let offset = bit % 8 in
    let first = or_at byte ((value * 2 ^ offset) % 256) out in
    if ltb (byte + 1) (length out) && ltb 3 offset
    then or_at (byte + 1) ((value / 2 ^ (8 - offset)) % 256) first
    else first

-- The loop over the characters; as many characters are behind one as its number `n`.
unfoldable pub decode_from : Bytes → Bytes → Result Base32Error Bytes
unfolding or_bits
decode_from [] out = ok out
decode_from (c ∷ text) out = elim (position c alphabet) [
  | none ↦ err (invalid_character c)
  | some value ↦ decode_from text (put_digit (length text) value out)
]

unfoldable pub decode_sha256 : Bytes → Result Base32Error Bytes
unfolding decode_from
decode_sha256 text = do
  guard (length text == 52) (wrong_length (length text))
  decode_from text (replicate 32 0)
