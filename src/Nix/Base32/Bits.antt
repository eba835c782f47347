-- ===== src/Nix/Base32/Bits.antt =====
-- crates/nix/src/base32.rs: words put together by `|`, and the bytes that their digits leave.
use circus.Common.{
  ℕ, zero, suc, ◌+◌, ◌-◌, ◌*◌, ◌/◌, ◌%◌, ◌^◌, ◌<◌, ◌≡◌, refl, sym, ap, subst, ◌∙◌, arith,
}
use circus.Nix.Base32.{or_bits, bit_or}

-- Shifts and powers by recursion.
abbrev shift : ℕ → ℕ → ℕ
shift zero c = c
shift (suc k) c = 2 * shift k c

abbrev pow : ℕ → ℕ
pow zero = 1
pow (suc k) = 2 * pow k

or_bits_comm : (w a b : ℕ) → or_bits w a b ≡ or_bits w b a
unfolding or_bits
or_bits_comm zero a b = refl
or_bits_comm (suc w) a b = ground (arith, or_bits_comm w (a / 2) (b / 2))

or_bits_zero : (w c : ℕ) → c < pow w → or_bits w 0 c ≡ c
unfolding or_bits
or_bits_zero zero c h = omega (arith, h)
or_bits_zero (suc w) c h = ground (arith, or_bits_zero w (c / 2) (omega (arith, h)))

-- Words without a common bit are added.
or_bits-shift :
    (w k a c : ℕ) → a < pow k → a + shift k c < pow w → or_bits w a (shift k c) ≡ a + shift k c
unfolding or_bits
or_bits-shift zero k a c h l = omega (arith, l)
or_bits-shift (suc w) zero a c h l =
    let none_set : a ≡ 0 = omega (arith, h) in
    subst (λ x. or_bits (suc w) x c ≡ x + c) (sym none_set)
      (omega (arith, or_bits_zero (suc w) c (omega (arith, l))))
or_bits-shift (suc w) (suc k) a c h l =
    let m = shift k c in
    let half : (2 * m) / 2 ≡ m = omega arith in
    let rest = or_bits-shift w k (a / 2) c (omega (arith, h)) (omega (arith, l)) in
    ground (arith, subst (λ x. or_bits w (a / 2) x ≡ a / 2 + m) (sym half) rest)

or_sum : (k a b c : ℕ) → b ≡ shift k c → a < pow k → a + b < 65536 → bit_or a b ≡ a + b
or_sum k a b c e h l =
    subst (λ x. bit_or a x ≡ a + x) (sym e) (or_bits-shift 16 k a c h (omega (arith, l, e)))

-- What two or three digits leave in a byte.
or_two : (k x y c : ℕ) → x ≡ shift k c → y < pow k → x + y < 65536 → bit_or (bit_or 0 x) y ≡ x + y
or_two k x y c e h l =
    let first = or_bits_zero 16 x (omega (arith, l)) in
    let both = or_bits_comm 16 x y ∙ or_sum k y x c e h (omega (arith, l)) in
    subst (λ z. bit_or z y ≡ x + y) (sym first) (omega (arith, both))

or_three :
    (k l x y z c d : ℕ)
    → x ≡ shift k c
    → y < pow k
    → x + y ≡ shift l d
    → z < pow l
    → x + y + z < 65536
    → bit_or (bit_or (bit_or 0 x) y) z ≡ x + y + z
or_three k l x y z c d e h f g small =
    let two = or_two k x y c e h (omega (arith, small)) in
    let last = or_bits_comm 16 (x + y) z ∙ or_sum l z (x + y) d f g (omega (arith, small)) in
    subst (λ w. bit_or w z ≡ x + y + z) (sym two) (omega (arith, last))

-- The digit at an offset into a byte, with the byte behind it.
abbrev pub five : ℕ → ℕ → ℕ → ℕ
five o a b = bit_or (a / 2 ^ o) (b * 2 ^ (8 - o)) % 32

five_0 : (a b : ℕ) → a < 256 → b < 256 → five 0 a b ≡ (a / 1 + b * 256) % 32
five_0 a b h k =
    ap (λ x. x % 32)
      (or_sum 8 (a / 1) (b * 256) b (omega arith) (omega (arith, h)) (omega (arith, h, k)))

five_1 : (a b : ℕ) → a < 256 → b < 256 → five 1 a b ≡ (a / 2 + b * 128) % 32
five_1 a b h k =
    ap (λ x. x % 32)
      (or_sum 7 (a / 2) (b * 128) b (omega arith) (omega (arith, h)) (omega (arith, h, k)))

five_2 : (a b : ℕ) → a < 256 → b < 256 → five 2 a b ≡ (a / 4 + b * 64) % 32
five_2 a b h k =
    ap (λ x. x % 32)
      (or_sum 6 (a / 4) (b * 64) b (omega arith) (omega (arith, h)) (omega (arith, h, k)))

five_3 : (a b : ℕ) → a < 256 → b < 256 → five 3 a b ≡ (a / 8 + b * 32) % 32
five_3 a b h k =
    ap (λ x. x % 32)
      (or_sum 5 (a / 8) (b * 32) b (omega arith) (omega (arith, h)) (omega (arith, h, k)))

five_4 : (a b : ℕ) → a < 256 → b < 256 → five 4 a b ≡ (a / 16 + b * 16) % 32
five_4 a b h k =
    ap (λ x. x % 32)
      (or_sum 4 (a / 16) (b * 16) b (omega arith) (omega (arith, h)) (omega (arith, h, k)))

five_5 : (a b : ℕ) → a < 256 → b < 256 → five 5 a b ≡ (a / 32 + b * 8) % 32
five_5 a b h k =
    ap (λ x. x % 32)
      (or_sum 3 (a / 32) (b * 8) b (omega arith) (omega (arith, h)) (omega (arith, h, k)))

five_6 : (a b : ℕ) → a < 256 → b < 256 → five 6 a b ≡ (a / 64 + b * 4) % 32
five_6 a b h k =
    ap (λ x. x % 32)
      (or_sum 2 (a / 64) (b * 4) b (omega arith) (omega (arith, h)) (omega (arith, h, k)))

five_7 : (a b : ℕ) → a < 256 → b < 256 → five 7 a b ≡ (a / 128 + b * 2) % 32
five_7 a b h k =
    ap (λ x. x % 32)
      (or_sum 1 (a / 128) (b * 2) b (omega arith) (omega (arith, h)) (omega (arith, h, k)))

-- The bytes of a group of forty bits, and the last byte, behind which there is none.
pub first_byte :
    (a b : ℕ)
    → a < 256
    → b < 256
    → bit_or (bit_or 0 ((five 5 a b * 32) % 256)) ((five 0 a b * 1) % 256) ≡ a
first_byte a b ha hb =
    let vx = five 5 a b in
    let vy = five 0 a b in
    let x = (vx * 32) % 256 in
    let y = (vy * 1) % 256 in
    omega (
      arith,
      five_5 a b ha hb,
      five_0 a b ha hb,
      or_two 5 x y (vx % 8) (omega (arith, five_5 a b ha hb, five_0 a b ha hb))
          (omega (arith, five_5 a b ha hb, five_0 a b ha hb))
          (omega (arith, five_5 a b ha hb, five_0 a b ha hb)),
    )

pub second_byte :
    (a b c : ℕ)
    → a < 256
    → b < 256
    → c < 256
    → bit_or
        (bit_or (bit_or 0 ((five 7 b c * 128) % 256)) ((five 2 b c * 4) % 256))
        ((five 5 a b / 8) % 256)
      ≡ b
second_byte a b c ha hb hc =
    let vx = five 7 b c in
    let vy = five 2 b c in
    let vz = five 5 a b in
    let x = (vx * 128) % 256 in
    let y = (vy * 4) % 256 in
    let z = (vz / 8) % 256 in
    omega (
      arith,
      five_7 b c hb hc,
      five_2 b c hb hc,
      five_5 a b ha hb,
      or_three 7 2 x y z (vx % 2) ((x + y) / 4)
          (omega (arith, five_7 b c hb hc, five_2 b c hb hc, five_5 a b ha hb))
          (omega (arith, five_7 b c hb hc, five_2 b c hb hc, five_5 a b ha hb))
          (omega (arith, five_7 b c hb hc, five_2 b c hb hc, five_5 a b ha hb))
          (omega (arith, five_7 b c hb hc, five_2 b c hb hc, five_5 a b ha hb))
          (omega (arith, five_7 b c hb hc, five_2 b c hb hc, five_5 a b ha hb)),
    )

pub third_byte :
    (a b c : ℕ)
    → a < 256
    → b < 256
    → c < 256
    → bit_or (bit_or 0 ((five 4 b c * 16) % 256)) ((five 7 a b / 2) % 256) ≡ b
third_byte a b c ha hb hc =
    let vx = five 4 b c in
    let vy = five 7 a b in
    let x = (vx * 16) % 256 in
    let y = (vy / 2) % 256 in
    omega (
      arith,
      five_4 b c hb hc,
      five_7 a b ha hb,
      or_two 4 x y (vx % 16) (omega (arith, five_4 b c hb hc, five_7 a b ha hb))
          (omega (arith, five_4 b c hb hc, five_7 a b ha hb))
          (omega (arith, five_4 b c hb hc, five_7 a b ha hb)),
    )

pub fourth_byte :
    (a b c : ℕ)
    → a < 256
    → b < 256
    → c < 256
    → bit_or
        (bit_or (bit_or 0 ((five 6 b c * 64) % 256)) ((five 1 b c * 2) % 256))
        ((five 4 a b / 16) % 256)
      ≡ b
fourth_byte a b c ha hb hc =
    let vx = five 6 b c in
    let vy = five 1 b c in
    let vz = five 4 a b in
    let x = (vx * 64) % 256 in
    let y = (vy * 2) % 256 in
    let z = (vz / 16) % 256 in
    omega (
      arith,
      five_6 b c hb hc,
      five_1 b c hb hc,
      five_4 a b ha hb,
      or_three 6 1 x y z (vx % 4) ((x + y) / 2)
          (omega (arith, five_6 b c hb hc, five_1 b c hb hc, five_4 a b ha hb))
          (omega (arith, five_6 b c hb hc, five_1 b c hb hc, five_4 a b ha hb))
          (omega (arith, five_6 b c hb hc, five_1 b c hb hc, five_4 a b ha hb))
          (omega (arith, five_6 b c hb hc, five_1 b c hb hc, five_4 a b ha hb))
          (omega (arith, five_6 b c hb hc, five_1 b c hb hc, five_4 a b ha hb)),
    )

pub fifth_byte :
    (a b c : ℕ)
    → a < 256
    → b < 256
    → c < 256
    → bit_or (bit_or 0 ((five 3 b c * 8) % 256)) ((five 6 a b / 4) % 256) ≡ b
fifth_byte a b c ha hb hc =
    let vx = five 3 b c in
    let vy = five 6 a b in
    let x = (vx * 8) % 256 in
    let y = (vy / 4) % 256 in
    omega (
      arith,
      five_3 b c hb hc,
      five_6 a b ha hb,
      or_two 3 x y (vx % 32) (omega (arith, five_3 b c hb hc, five_6 a b ha hb))
          (omega (arith, five_3 b c hb hc, five_6 a b ha hb))
          (omega (arith, five_3 b c hb hc, five_6 a b ha hb)),
    )

pub last_byte :
    (a b : ℕ)
    → a < 256
    → b < 256
    → bit_or
        (bit_or (bit_or 0 ((((b / 128) % 32) * 128) % 256)) ((((b / 4) % 32) * 4) % 256))
        ((five 5 a b / 8) % 256)
      ≡ b
last_byte a b ha hb =
    let vx = (b / 128) % 32 in
    let vy = (b / 4) % 32 in
    let vz = five 5 a b in
    let x = (vx * 128) % 256 in
    let y = (vy * 4) % 256 in
    let z = (vz / 8) % 256 in
    omega (
      arith,
      five_5 a b ha hb,
      or_three 7 2 x y z (vx % 2) ((x + y) / 4) (omega (arith, five_5 a b ha hb))
          (omega (arith, five_5 a b ha hb)) (omega (arith, five_5 a b ha hb))
          (omega (arith, five_5 a b ha hb)) (omega (arith, five_5 a b ha hb)),
    )
