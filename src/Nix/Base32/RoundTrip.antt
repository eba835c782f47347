-- ===== src/Nix/Base32/RoundTrip.antt =====
-- crates/nix/src/base32.rs: a digest survives its text.
use circus.Common.{
  ℕ, zero, suc, ◌<◌, ◌≡◌, refl, sym, ap, subst, ◌∙◌, Bool, true, false, ◌&&◌, [], ◌∷◌, none, some,
  Bytes, arith, ok, length, All, ◌==◌, replicate, inl, inr, &&-eq-true, ==_iff, Option-cases,
  Bool-cases,
}
use circus.Nix.NixHash.{alphabet}
use circus.Nix.Base32.{
  or_bits, byte_at, value_at, digit_at, digits, encode_sha256, position, put_digit, decode_from,
  decode_sha256,
}
use circus.Nix.Base32.Bits.{first_byte, second_byte, third_byte, fourth_byte, fifth_byte, last_byte}

-- Every value of five bits is found under its character.
found : ℕ → Bool
found v = elim (position (byte_at alphabet v) alphabet) [ none ↦ false | some i ↦ i == v ]

all_below : ℕ → Bool
unfolding found
all_below zero = true
all_below (suc n) = found n && all_below n

below_or : (v n : ℕ) → v < suc n → (v == n) ≡ false → v < n
below_or v n l e = ground (arith, l, e)

found_below : (n v : ℕ) → all_below n ≡ true → v < n → found v ≡ true
unfolding all_below
found_below zero v h l = absurd (omega (arith, l))
found_below (suc n) v h l =
    let (here, rest) = (&&-eq-true (found n) (all_below n)).0 h in
    elim (Bool-cases (v == n)) [
      | inl e ↦ subst (λ x. found x ≡ true) (sym ((==_iff v n).0 e)) here
      | inr e ↦ found_below n v rest (below_or v n l e)
    ]

position-byte_at : (v : ℕ) → v < 32 → position (byte_at alphabet v) alphabet ≡ some v
unfolding all_below found
position-byte_at v l =
    let h = found_below 32 v refl l in
    elim (Option-cases (position (byte_at alphabet v) alphabet)) [
      | inl n ↦ absurd (ground (arith, n, h))
      | inr (i, k) ↦ k ∙ ap some (ground (arith, k, h))
    ]

-- The decoder puts back the values that the encoder has read.
puts : Bytes → ℕ → Bytes → Bytes
unfolding or_bits
puts bytes zero out = out
puts bytes (suc n) out = puts bytes n (put_digit n (value_at bytes n) out)

length-digits : (bytes : Bytes) (n : ℕ) → length (digits bytes n) ≡ n
length-digits bytes zero = refl
length-digits bytes (suc n) = omega (arith, length-digits bytes n)

value_at-lt : (bytes : Bytes) (n : ℕ) → value_at bytes n < 32
unfolding value_at
value_at-lt bytes n = omega arith

decode_from_step :
    (c v : ℕ) (text out : Bytes)
    → position c alphabet ≡ some v
    → decode_from (c ∷ text) out ≡ decode_from text (put_digit (length text) v out)
unfolding decode_from
decode_from_step c v text out k = ground (arith, k)

decode_from-digits :
    (bytes : Bytes) (n : ℕ) (out : Bytes) → decode_from (digits bytes n) out ≡ ok (puts bytes n out)
unfolding decode_from digit_at puts
decode_from-digits bytes zero out = refl
decode_from-digits bytes (suc n) out =
    let k = position-byte_at (value_at bytes n) (value_at-lt bytes n) in
    let rest = decode_from-digits bytes n (put_digit n (value_at bytes n) out) in
    let v = value_at bytes n in
    decode_from_step (digit_at bytes n) v (digits bytes n) out k
    ∙ subst (λ l. decode_from (digits bytes n) (put_digit l v out) ≡ ok (puts bytes (suc n) out))
        (sym (length-digits bytes n)) rest

cons_eq : {a b : ℕ} {s t : Bytes} → a ≡ b → s ≡ t → a ∷ s ≡ b ∷ t
cons_eq p q = λ i. p i ∷ q i

-- A list as the values of a function.
table : (ℕ → ℕ) → ℕ → Bytes
table f zero = []
table f (suc n) = f 0 ∷ table (λ i. f (suc i)) n

table-byte_at : (bytes : Bytes) → table (byte_at bytes) (length bytes) ≡ bytes
unfolding table
table-byte_at [] = refl
table-byte_at (b ∷ bytes) = ap (λ l. b ∷ l) (table-byte_at bytes)

puts_table :
    (f : ℕ → ℕ) → ((i : ℕ) → f i < 256) → puts (table f 32) 52 (replicate 32 0) ≡ table f 32
unfolding puts value_at table
puts_table f h =
    (cons_eq (first_byte (f 0) (f 1) (h 0) (h 1)) (
      cons_eq (second_byte (f 0) (f 1) (f 2) (h 0) (h 1) (h 2)) (
        cons_eq (third_byte (f 1) (f 2) (f 3) (h 1) (h 2) (h 3)) (
          cons_eq (fourth_byte (f 2) (f 3) (f 4) (h 2) (h 3) (h 4)) (
            cons_eq (fifth_byte (f 3) (f 4) (f 5) (h 3) (h 4) (h 5)) (
              cons_eq (first_byte (f 5) (f 6) (h 5) (h 6)) (
                cons_eq (second_byte (f 5) (f 6) (f 7) (h 5) (h 6) (h 7)) (
                  cons_eq (third_byte (f 6) (f 7) (f 8) (h 6) (h 7) (h 8)) (
                    cons_eq (fourth_byte (f 7) (f 8) (f 9) (h 7) (h 8) (h 9)) (
                      cons_eq (fifth_byte (f 8) (f 9) (f 10) (h 8) (h 9) (h 10)) (
                        cons_eq (first_byte (f 10) (f 11) (h 10) (h 11)) (
                          cons_eq (second_byte (f 10) (f 11) (f 12) (h 10) (h 11) (h 12)) (
                            cons_eq (third_byte (f 11) (f 12) (f 13) (h 11) (h 12) (h 13)) (
                              cons_eq (fourth_byte (f 12) (f 13) (f 14) (h 12) (h 13) (h 14)) (
                                cons_eq (fifth_byte (f 13) (f 14) (f 15) (h 13) (h 14) (h 15)) (
                                  cons_eq (first_byte (f 15) (f 16) (h 15) (h 16)) (
                                    cons_eq (second_byte (f 15) (f 16) (f 17) (h 15) (h 16) (h 17))
                                      (cons_eq
                                        (third_byte (f 16) (f 17) (f 18) (h 16) (h 17) (h 18))
                                        (cons_eq
                                          (fourth_byte (f 17) (f 18) (f 19) (h 17) (h 18) (h 19))
                                          (cons_eq
                                            (fifth_byte (f 18) (f 19) (f 20) (h 18) (h 19) (h 20))
                                            (cons_eq (first_byte (f 20) (f 21) (h 20) (h 21)) (
                                              cons_eq
                                                (second_byte (f 20) (f 21) (f 22) (h 20) (h 21)
                                                  (h 22))
                                                (cons_eq
                                                  (third_byte (f 21) (f 22) (f 23) (h 21) (h 22)
                                                    (h 23))
                                                  (cons_eq
                                                    (fourth_byte (f 22) (f 23) (f 24) (h 22) (h 23)
                                                      (h 24))
                                                    (cons_eq
                                                      (fifth_byte (f 23) (f 24) (f 25) (h 23) (h 24)
                                                        (h 25))
                                                      (cons_eq
                                                        (first_byte (f 25) (f 26) (h 25) (h 26))
                                                        (cons_eq
                                                          (second_byte (f 25) (f 26) (f 27) (h 25)
                                                            (h 26) (h 27))
                                                          (cons_eq
                                                            (third_byte (f 26) (f 27) (f 28) (h 26)
                                                            (h 27) (h 28))
                                                            (cons_eq
                                                            (fourth_byte (f 27) (f 28) (f 29) (h 27)
                                                            (h 28) (h 29))
                                                            (cons_eq
                                                            (fifth_byte (f 28) (f 29) (f 30) (h 28)
                                                            (h 29) (h 30))
                                                            (cons_eq
                                                            (first_byte (f 30) (f 31) (h 30) (h 31))
                                                            (cons_eq
                                                            (last_byte (f 30) (f 31) (h 30) (h 31))
                                                            refl))))))))))))))))))))))))))))))))

byte_at-lt : (bytes : Bytes) → All (λ b. b < 256) bytes → (i : ℕ) → byte_at bytes i < 256
byte_at-lt [] h i = omega arith
byte_at-lt (b ∷ bytes) (h, hs) zero = h
byte_at-lt (b ∷ bytes) (h, hs) (suc i) = byte_at-lt bytes hs i

decode_of :
    (text : Bytes) → length text ≡ 52 → decode_sha256 text ≡ decode_from text (replicate 32 0)
unfolding decode_sha256
decode_of text l = rw l refl

encode_of : (bytes : Bytes) → encode_sha256 bytes ≡ digits bytes 52
unfolding encode_sha256
encode_of bytes = refl

-- A digest of 32 bytes is what the decoder reads in the text of the encoder.
pub decode_sha256-encode_sha256 :
    (bytes : Bytes)
    → length bytes ≡ 32
    → All (λ b. b < 256) bytes
    → decode_sha256 (encode_sha256 bytes) ≡ ok bytes
decode_sha256-encode_sha256 bytes l h =
    let same = subst (λ n. table (byte_at bytes) n ≡ bytes) l (table-byte_at bytes) in
    let back = puts_table (byte_at bytes) (byte_at-lt bytes h) in
    ap decode_sha256 (encode_of bytes)
    ∙ decode_of (digits bytes 52) (length-digits bytes 52)
    ∙ decode_from-digits bytes 52 (replicate 32 0)
    ∙ ap ok (subst (λ x. puts x 52 (replicate 32 0) ≡ x) same back)
