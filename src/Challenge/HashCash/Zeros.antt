-- ===== src/Challenge/HashCash/Zeros.antt =====
-- `countLeadingZeroBits` measures a digest as a number.
use native.Mathlib.Nat.{pow-le-pow_right, mul-le-mul_right}
use eu_trust_sdk.Base.{
  ℕ, zero, suc, ◌+◌, ◌-◌, ◌*◌, ◌/◌, ◌^◌, ◌≤◌, ◌<◌, ◌≡◌, ◌≢◌, refl, sym, Bool, true, ◌&&◌, ◌||◌, ◌↔◌,
  [], ◌∷◌, arith, length, ltb, leb, ltb→lt, leb→le, ◌==◌, Bool-cases, inl, inr, Text, ◌⊎◌,
}
use eu_trust_sdk.Base.Bytes.{IsBytes, to_int, to_int-lt}
use eu_trust_sdk.Base.Table.{all_below, all_below_sound}
use eu_trust_sdk.Rsa.Arith.{pow-add, pow-bytes}
use eu_trust_sdk.Challenge.HashCash.{scan_mask, zero_bits_from, count_leading_zero_bits}

scan_mask-add :
    (rounds mask b count : ℕ) → scan_mask rounds mask b count ≡ count + scan_mask rounds mask b 0
unfolding scan_mask
scan_mask-add zero mask b count = omega arith
scan_mask-add (suc rounds) mask b count = ground (
  arith,
  scan_mask-add rounds (mask / 2) b (count + 1),
  scan_mask-add rounds (mask / 2) b (0 + 1),
)

zero_bits_from-add : (count : ℕ) (bs : Text) → zero_bits_from count bs ≡ count + zero_bits_from 0 bs
unfolding zero_bits_from
zero_bits_from-add count [] = omega arith
zero_bits_from-add count (b ∷ bs) = ground (
  arith,
  zero_bits_from-add (count + 8) bs,
  zero_bits_from-add (0 + 8) bs,
  scan_mask-add 9 0x80 b count,
)

abbrev in_byte : ℕ → Bool
in_byte b =
    b == 0
    || (ltb (scan_mask 9 0x80 b 0) 8
        && ltb b (2 ^ (8 - scan_mask 9 0x80 b 0))
        && leb (2 ^ (7 - scan_mask 9 0x80 b 0)) b)

byte_table : all_below 256 in_byte ≡ true
unfolding all_below scan_mask
byte_table = refl

in_byte_lem :
    (b : ℕ)
    → b < 256
    → b ≢ 0
    → (scan_mask 9 0x80 b 0 < 8)
      × (b < 2 ^ (8 - scan_mask 9 0x80 b 0))
      × (2 ^ (7 - scan_mask 9 0x80 b 0) ≤ b)
in_byte_lem b small pos =
    grind (arith, all_below_sound 256 in_byte b byte_table small, in_byte, ltb→lt, leb→le)

-- A byte string with `z` leading zero bits lies below the power of two of the bits that are left,
-- and not below the power before that, unless no bits are left.
record IsMeasured (bs : Text) (z : ℕ) : Type 0 where
  pub short : z ≤ 8 * length bs
  pub below : (k : ℕ) → k + z ≡ 8 * length bs → to_int bs < 2 ^ k
  pub above : (k : ℕ) → suc k + z ≡ 8 * length bs → 2 ^ k ≤ to_int bs

top_byte-lt :
    (b l t s k : ℕ)
    → s < 8
    → b < 2 ^ (8 - s)
    → t < 256 ^ l
    → k + s ≡ 8 * suc l
    → b * 256 ^ l + t < 2 ^ k
top_byte-lt b l t s k small below rest e =
    let high : k ≡ (8 - s) + 8 * l = omega arith in
    let up : (b + 1) * 256 ^ l ≤ 2 ^ (8 - s) * 256 ^ l = mul-le-mul_right (256 ^ l) (omega arith) in
    rw (high, pow-add 2 (8 - s) (8 * l), sym (pow-bytes l)) (grind arith)

top_byte-le :
    (b l t s k : ℕ) → s < 8 → 2 ^ (7 - s) ≤ b → suc k + s ≡ 8 * suc l → 2 ^ k ≤ b * 256 ^ l + t
top_byte-le b l t s k small above e =
    let low : k ≡ (7 - s) + 8 * l = omega arith in
    let down : 2 ^ (7 - s) * 256 ^ l ≤ b * 256 ^ l = mul-le-mul_right (256 ^ l) above in
    rw (low, pow-add 2 (7 - s) (8 * l), sym (pow-bytes l)) (grind arith)

zero_byte : (bs : Text) → zero_bits_from 0 (0 ∷ bs) ≡ 8 + zero_bits_from 0 bs
unfolding zero_bits_from
zero_byte bs = zero_bits_from-add 8 bs

other_byte : (b : ℕ) (bs : Text) → b ≢ 0 → zero_bits_from 0 (b ∷ bs) ≡ scan_mask 9 0x80 b 0
unfolding zero_bits_from
other_byte b bs pos = ground (arith, pos)

nil-IsMeasured : IsMeasured [] (zero_bits_from 0 [])
unfolding zero_bits_from to_int
nil-IsMeasured = record {
  short = omega arith;
  below = λ k e. let z : k ≡ 0 = omega arith in rw z (omega arith);
  above = λ k e. absurd (omega arith);
}

zero-IsMeasured : (bs : Text) (z : ℕ) → IsMeasured bs z → IsMeasured (0 ∷ bs) (8 + z)
unfolding to_int
zero-IsMeasured bs z m = record {
  short = omega (arith, m.short);
  below = λ k e. omega (arith, m.below k (omega arith));
  above = λ k e. omega (arith, m.above k (omega arith));
}

other-IsMeasured :
    (b : ℕ) (bs : Text) → IsBytes bs → b < 256 → b ≢ 0 → IsMeasured (b ∷ bs) (scan_mask 9 0x80 b 0)
unfolding to_int
other-IsMeasured b bs h small pos =
    let (s, low, high) = in_byte_lem b small pos in
    record {
      short = omega arith;
      below = λ k e.
          top_byte-lt b (length bs) (to_int bs) (scan_mask 9 0x80 b 0) k s low (to_int-lt bs h) e;
      above = λ k e. top_byte-le b (length bs) (to_int bs) (scan_mask 9 0x80 b 0) k s high e;
    }

zero_cases : (b : ℕ) → (b ≡ 0) ⊎ (b ≢ 0)
zero_cases zero = inl refl
zero_cases (suc b) = inr (λ e. absurd (omega arith))

zero_bits-IsMeasured : (bs : Text) → IsBytes bs → IsMeasured bs (zero_bits_from 0 bs)
zero_bits-IsMeasured [] h = nil-IsMeasured
zero_bits-IsMeasured (b ∷ bs) h = elim (zero_cases b) [
  | inl e ↦
      rw (e, zero_byte bs) (zero-IsMeasured bs (zero_bits_from 0 bs) (zero_bits-IsMeasured bs h.1))
  | inr e ↦ rw (other_byte b bs e) (other-IsMeasured b bs h.1 h.0 e)
]

-- A byte string begins with at least `d` zero bits exactly when the number that it spells lies
-- below the power of two of its other bits.
pub leading_zeros_iff :
    (bs : Text) (d k : ℕ)
    → IsBytes bs
    → k + d ≡ 8 * length bs
    → (d ≤ count_leading_zero_bits bs) ↔ (to_int bs < 2 ^ k)
unfolding count_leading_zero_bits
leading_zeros_iff bs d k h e =
    let z = zero_bits_from 0 bs in
    let m = zero_bits-IsMeasured bs h in
    let j = 8 * length bs - z in
    (
      λ enough.
          let grow : 2 ^ j ≤ 2 ^ k = pow-le-pow_right (omega arith) (omega arith) in
          omega (arith, m.below j (omega (arith, m.short))),
      λ below. elim (Bool-cases (leb d z)) [
        | inl le ↦ leb→le d z le
        | inr gt ↦
            let more : z < d = ground (arith, gt) in
            let grow : 2 ^ k ≤ 2 ^ (j - 1) = pow-le-pow_right (omega arith) (omega arith) in
            absurd (omega (arith, m.above (j - 1) (omega (arith, m.short))))
      ],
    )
