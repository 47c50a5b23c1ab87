-- ===== src/Rsa/Generate/Length.antt =====
-- The length of the product of two safe primes of one length.
use native.Mathlib.Nat.{pow-suc, pow-le-pow_right, mul-le-mul}
use eu_trust_sdk.Base.{
  ℕ, suc, ◌+◌, ◌*◌, ◌^◌, ◌<◌, ◌≤◌, ◌≡◌, arith, ltb, ltb→lt, Bool-cases, inl, inr,
}
use eu_trust_sdk.Rsa.Arith.{bit_len, bit_len-bounds, pow-add}

exponent_lt : (i j : ℕ) → 2 ^ i < 2 ^ j → i < j
exponent_lt i j h = elim (Bool-cases (ltb i j)) [
  | inl below ↦ ltb→lt i j below
  | inr above ↦ absurd (
      omega (arith, pow-le-pow_right {n = 2} (omega arith) {i = j} {j = i} (ground (arith, above))))
]

pow-pos : (k : ℕ) → 1 ≤ 2 ^ k
pow-pos k = pow-le-pow_right {n = 2} (omega arith) {i = 0} {j = k} (omega arith)

-- A number between two neighbouring powers has the length of the upper one.
pub bit_len_eq : (n k : ℕ) → 2 ^ k ≤ n → n < 2 ^ suc k → bit_len n ≡ suc k
bit_len_eq n k lo hi =
    let (above, below) = bit_len-bounds n (omega (arith, pow-pos k)) in
    omega (
      arith,
      exponent_lt (bit_len n) (suc (suc k)) (omega (arith, pow-suc 2 (suc k))),
      exponent_lt k (bit_len n) (omega arith),
    )

product_lt : (a b x y : ℕ) → a < x → b < y → a * b < x * y
product_lt a b x y ha hb =
    let h : (a + 1) * (b + 1) ≤ x * y = mul-le-mul (omega arith) (omega arith) in
    let e : (a + 1) * (b + 1) ≡ a * b + a + b + 1 = omega arith in omega (arith, h, e)

-- The product of two safe primes of `b + 1` bits has no more than twice as many bits, and where the
-- two top bits are set, no fewer.
pub product_short :
    (b p q : ℕ) → p < 2 ^ b → q < 2 ^ b → (p * 2 + 1) * (q * 2 + 1) < 2 ^ (2 * (b + 1))
product_short b p q hp hq =
    let side : (x : ℕ) → x < 2 ^ b → x * 2 + 1 < 2 ^ suc b = λ x h. omega (arith, pow-suc 2 b) in
    let e : 2 * (b + 1) ≡ suc b + suc b = omega arith in
    rw (e, pow-add 2 (suc b) (suc b))
      (product_lt (p * 2 + 1) (q * 2 + 1) (2 ^ suc b) (2 ^ suc b) (side p hp) (side q hq))

long : (t p q : ℕ) → 3 * t ≤ p → 3 * t ≤ q → t * t * 32 ≤ (p * 2 + 1) * (q * 2 + 1)
long t p q hp hq =
    let h : 6 * t * (6 * t) ≤ (p * 2 + 1) * (q * 2 + 1) = mul-le-mul (omega arith) (omega arith) in
    let e : 6 * t * (6 * t) ≡ 36 * (t * t) = omega arith in omega (arith, h, e)

pub product_long :
    (c p q : ℕ) → 3 * 2 ^ c ≤ p → 3 * 2 ^ c ≤ q → 2 ^ (2 * c + 5) ≤ (p * 2 + 1) * (q * 2 + 1)
product_long c p q hp hq =
    let e : 2 * c + 5 ≡ c + c + 5 = omega arith in
    rw (e, pow-add 2 (c + c) 5, pow-add 2 c c) (long (2 ^ c) p q hp hq)
