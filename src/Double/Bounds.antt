-- ===== src/Double/Bounds.antt =====
-- A rounded value does not pass a whole number that its exact value does not pass.
use eu_trust_sdk.Base.{
  ℕ, zero, suc, ◌+◌, ◌-◌, ◌*◌, ◌/◌, ◌%◌, ◌^◌, ◌≤◌, ◌<◌, ◌≡◌, sym, ap, arith, leb, leb→le,
  Bool-cases, inl, inr, ◌∙◌, ltb, subst,
}
use native.Mathlib.Nat.{
  mul-mod_left, pow-le-pow_right, div-lt_iff_lt-mul, div-add-mod', one-le-pow, mul-pos,
  mul-le-mul_right, mul-div_cancel,
}
use eu_trust_sdk.Rsa.Arith.{pow-add}
use eu_trust_sdk.Double.{bit_length, rounds, nearest, round_div, one, of_int, add, div}

pow-lt : (b half n : ℕ) → 2 ^ half ≤ n → n < 2 ^ b → half < b
pow-lt b half n low high = elim (Bool-cases (leb b half)) [
  | inl le ↦
      let up : 2 ^ b ≤ 2 ^ half = pow-le-pow_right (omega arith) (leb→le b half le) in
      absurd (omega arith)
  | inr gt ↦ ground (arith, gt)
]

high_half : (b half n : ℕ) → half < b → n < 2 ^ b → n / 2 ^ half < 2 ^ (b - half)
high_half b half n lt h =
    let e : b ≡ (b - half) + half = omega arith in
    let split : 2 ^ b ≡ 2 ^ (b - half) * 2 ^ half = ap (λ k. 2 ^ k) e ∙ pow-add 2 (b - half) half in
    (div-lt_iff_lt-mul (one-le-pow half 2 (omega arith))).1 (omega (arith, split))

bit_length_le : (r n b : ℕ) → n < 2 ^ b → bit_length r n ≤ b
unfolding bit_length
bit_length_le zero n zero h = ground arith
bit_length_le zero n (suc b) h = ground arith
bit_length_le (suc r) n b h = elim (Bool-cases (leb (2 ^ (2 ^ r)) n)) [
  | inl high ↦
      let lt = pow-lt b (2 ^ r) n (leb→le _ n high) h in
      rw high
        (omega (arith, bit_length_le r (n / 2 ^ (2 ^ r)) (b - 2 ^ r) (high_half b (2 ^ r) n lt h)))
  | inr low ↦ rw low (omega (arith, bit_length_le r n b h))
]

-- A quotient that is at most `k` is rounded to at most that.
nearest-le : (n d k : ℕ) → 0 < d → n ≤ k * d → nearest (n / d) (n % d) d ≤ k
unfolding nearest
nearest-le n d k pos h =
    let small : n / d < suc k = (div-lt_iff_lt-mul pos).1 (omega arith) in
    let split = div-add-mod' n d in
    elim (Bool-cases (ltb (n / d) k)) [
      | inl lt ↦ ground (arith, lt)
      | inr ge ↦
          let same : n / d ≡ k = ground (arith, ge) in
          let none_left : n % d ≡ 0 = omega (arith, ap (λ (t : ℕ). t * d) same) in
          rw (same, none_left) (ground arith)
    ]

scaled-le :
    (n d k e x : ℕ)
    → 0 < d
    → x ≤ e
    → n ≤ k * 2 ^ e * d
    → nearest (n / (2 ^ x * d)) (n % (2 ^ x * d)) (2 ^ x * d) * 2 ^ x ≤ k * 2 ^ e
scaled-le n d k e x pos le h =
    let split : 2 ^ e ≡ 2 ^ (e - x) * 2 ^ x =
      let parts : e ≡ (e - x) + x = omega arith in ap (λ i. 2 ^ i) parts ∙ pow-add 2 (e - x) x in
    let unit : 0 < 2 ^ x = one-le-pow x 2 (omega arith) in
    let whole : k * 2 ^ e ≡ k * 2 ^ (e - x) * 2 ^ x = omega (arith, ap (λ (t : ℕ). k * t) split) in
    let fits : n ≤ k * 2 ^ (e - x) * (2 ^ x * d) = omega (arith, ap (λ (t : ℕ). t * d) whole) in
    let positive : 0 < 2 ^ x * d = mul-pos unit pos in
    rw whole (mul-le-mul_right (2 ^ x) (nearest-le n (2 ^ x * d) (k * 2 ^ (e - x)) positive fits))

-- A quotient is rounded to no more than a whole number below 2 ^ 53 that it does not pass.
pub round_div-le : (n d k : ℕ) → 0 < d → k < 2 ^ 53 → n ≤ k * one * d → round_div n d ≤ k * one
unfolding round_div one
round_div-le n d k pos small h =
    let quotient : n / d < suc (k * 2 ^ 1074) = (div-lt_iff_lt-mul pos).1 (omega arith) in
    let digits : bit_length rounds (n / d) ≤ 1127 =
      bit_length_le rounds (n / d) 1127 (omega arith) in
    scaled-le n d k 1074 (bit_length rounds (n / d) - 53) pos (omega arith) h

nearest-exact : (k d : ℕ) → 0 < d → nearest (k * d / d) (k * d % d) d ≡ k
unfolding nearest
nearest-exact k d pos =
    let whole : k * d / d ≡ k = mul-div_cancel k pos in
    let none_left : k * d % d ≡ 0 = mul-mod_left k d in rw (whole, none_left) (ground arith)

scaled-exact :
    (k e x : ℕ)
    → x ≤ e
    → nearest (k * 2 ^ e / (2 ^ x * 1)) (k * 2 ^ e % (2 ^ x * 1)) (2 ^ x * 1) * 2 ^ x ≡ k * 2 ^ e
scaled-exact k e x le =
    let split : 2 ^ e ≡ 2 ^ (e - x) * 2 ^ x =
      let parts : e ≡ (e - x) + x = omega arith in ap (λ i. 2 ^ i) parts ∙ pow-add 2 (e - x) x in
    let whole : k * 2 ^ e ≡ k * 2 ^ (e - x) * 2 ^ x = omega (arith, ap (λ (t : ℕ). k * t) split) in
    let one_unit : 2 ^ x * 1 ≡ 2 ^ x = omega arith in
    rw (one_unit, whole, nearest-exact (k * 2 ^ (e - x)) (2 ^ x) (one-le-pow x 2 (omega arith)))

-- A whole number below 2 ^ 53 is a double.
pub of_int-exact : (k : ℕ) → k < 2 ^ 53 → of_int k ≡ k * one
unfolding of_int round_div one
of_int-exact k small =
    let quotient : k * 2 ^ 1074 / 1 < 2 ^ 1127 = omega arith in
    let digits = bit_length_le rounds (k * 2 ^ 1074 / 1) 1127 quotient in
    scaled-exact k 1074 (bit_length rounds (k * 2 ^ 1074 / 1) - 53) (omega arith)

pub add-le : (x y k : ℕ) → suc k < 2 ^ 53 → x ≤ k * one → y ≤ one → add x y ≤ suc k * one
unfolding add
add-le x y k small hx hy = round_div-le (x + y) 1 (suc k) (omega arith) small (omega arith)

one-pos : 0 < one
unfolding one
one-pos = omega arith

div-le : (x y : ℕ) → 0 < y → x ≤ y → div x y ≤ one
unfolding div
div-le x y pos h =
    omega
      (arith, round_div-le (x * one) y 1 pos (omega arith) (omega (arith, mul-le-mul_right one h)))

-- The mean of `k` numbers that are at most 1, from their rounded sum.
pub mean-le : (total k : ℕ) → 0 < k → k < 2 ^ 53 → total ≤ k * one → div total (of_int k) ≤ one
mean-le total k pos small h =
    subst (λ (t : ℕ). div total t ≤ one) (sym (of_int-exact k small))
      (div-le total (k * one) (mul-pos pos one-pos) h)
