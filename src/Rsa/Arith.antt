-- ===== src/Rsa/Arith.antt =====
-- The operations of `math/big` that the signatures use: `BitLen`, `Exp` and `ModInverse`, on numbers
-- that are never negative.
pub mod Euclid
pub mod Fermat
pub mod Recover
pub mod Trial
pub mod Pocklington
use native.Mathlib.Nat.{
  pow-suc, pow-zero, add-zero, add-suc, mul-one, mul_assoc, le_refl, mul-mul-mul_comm, mul_comm,
  mod-mod, div-add-mod', add-mul-mod_self_right,
}
use eu_trust_sdk.Base.{
  ℕ, zero, suc, ◌+◌, ◌*◌, ◌/◌, ◌%◌, ◌^◌, ◌≤◌, ◌<◌, ◌≡◌, ◌≢◌, refl, ap, sym, ◌∙◌, true, false,
  Option, none, some, arith, ◌==◌, ==_iff, Bool-cases, inl, inr,
}

-- The number of binary digits, at most `fuel`.
unfoldable pub bit_len_from : ℕ → ℕ → ℕ
bit_len_from zero n = 0
bit_len_from (suc fuel) n = elim (n == 0) [ true ↦ 0 | false ↦ suc (bit_len_from fuel (n / 2)) ]

-- `n.BitLen()`: a number has no more digits than its value.
unfoldable pub bit_len : ℕ → ℕ
unfolding bit_len_from
bit_len n = bit_len_from n n

-- `Exp(b, e, n)`
unfoldable pub mod_exp : ℕ → ℕ → ℕ → ℕ
mod_exp b e n = b ^ e % n

-- The least inverse from `x` on, among the `rounds` numbers there.
unfoldable pub inverse_from : ℕ → ℕ → ℕ → ℕ → Option ℕ
inverse_from a n zero x = none
inverse_from a n (suc rounds) x = elim (a * x % n == 1 % n) [
  | true ↦ some x
  | false ↦ inverse_from a n rounds (x + 1)
]

-- `ModInverse(a, n)`: the inverse below `n`, or `nil`.
unfoldable pub mod_inverse : ℕ → ℕ → Option ℕ
unfolding inverse_from
mod_inverse a n = inverse_from a n n 0

inverse_from_sound :
    (a n rounds x y : ℕ)
    → inverse_from a n rounds x ≡ some y
    → (a * y % n ≡ 1 % n) × (x ≤ y) × (y < x + rounds)
unfolding inverse_from
inverse_from_sound a n zero x y h = cc
inverse_from_sound a n (suc rounds) x y h = ground (arith, inverse_from_sound a n rounds (x + 1) y)

inverse_from_complete :
    (a n rounds x y : ℕ)
    → x ≤ y
    → y < x + rounds
    → a * y % n ≡ 1 % n
    → inverse_from a n rounds x ≢ none
unfolding inverse_from
inverse_from_complete a n zero x y lo hi e = absurd (omega arith)
inverse_from_complete a n (suc rounds) x y lo hi e = elim (Bool-cases (a * x % n == 1 % n)) [
  | inl found ↦ rw (found, inverse_from) (λ p. cc p)
  | inr not_yet ↦
      let later : x ≢ y =
        λ p. cc (not_yet, (==_iff (a * x % n) (1 % n)).1 (ap (λ (t : ℕ). a * t % n) p ∙ e)) in
      rw (not_yet, inverse_from)
        (inverse_from_complete a n rounds (x + 1) y (omega arith) (omega arith) e)
]

-- An inverse is found exactly when there is one, and it lies below the modulus.
pub mod_inverse_sound : (a n y : ℕ) → mod_inverse a n ≡ some y → (a * y % n ≡ 1 % n) × (y < n)
unfolding mod_inverse
mod_inverse_sound a n y h = omega (arith, inverse_from_sound a n n 0 y h)

pub mod_inverse_complete : (a n y : ℕ) → y < n → a * y % n ≡ 1 % n → mod_inverse a n ≢ none
unfolding mod_inverse
mod_inverse_complete a n y h e = inverse_from_complete a n n 0 y (omega arith) (omega arith) e

-- Products and powers modulo `n`.
pub mul-mod_left : (a b n : ℕ) → a % n * b % n ≡ a * b % n
mul-mod_left a b n =
    let split : a * b ≡ a % n * b + a / n * b * n =
      omega (arith, ap (λ (t : ℕ). t * b) (div-add-mod' a n)) in
    rw split (sym (add-mul-mod_self_right (a % n * b) (a / n * b) n))

pub mul-mod : (a b n : ℕ) → (a % n) * (b % n) % n ≡ a * b % n
mul-mod a b n =
    mul-mod_left a (b % n) n
    ∙ ap (λ (t : ℕ). t % n) (mul_comm a (b % n))
    ∙ mul-mod_left b a n
    ∙ ap (λ (t : ℕ). t % n) (mul_comm b a)

pub pow-mod : (a k n : ℕ) → (a % n) ^ k % n ≡ a ^ k % n
pow-mod a zero n = rw (pow-zero, pow-zero)
pow-mod a (suc k) n =
    rw (pow-suc (a % n) k, pow-suc a k)
      (sym (mul-mod ((a % n) ^ k) (a % n) n)
        ∙ ap (λ (t : ℕ). t * (a % n % n) % n) (pow-mod a k n)
        ∙ ap (λ (t : ℕ). a ^ k % n * t % n) (mod-mod a n)
        ∙ mul-mod (a ^ k) a n)

pub mul-pow : (a b k : ℕ) → (a * b) ^ k ≡ a ^ k * b ^ k
mul-pow a b zero = rw (pow-zero, pow-zero, pow-zero)
mul-pow a b (suc k) =
    rw (pow-suc (a * b) k, pow-suc a k, pow-suc b k, mul-pow a b k)
      (mul-mul-mul_comm (a ^ k) (b ^ k) a b)

pub one-pow : (k : ℕ) → 1 ^ k ≡ 1
one-pow zero = refl
one-pow (suc k) = rw (pow-suc 1 k, one-pow k)

bit_len_from-zero : (fuel : ℕ) → bit_len_from fuel 0 ≡ 0
unfolding bit_len_from
bit_len_from-zero zero = refl
bit_len_from-zero (suc fuel) = refl

bit_len_from-bounds :
    (fuel n : ℕ)
    → n ≤ fuel
    → 0 < n
    → (n < 2 ^ bit_len_from fuel n) × (2 ^ bit_len_from fuel n ≤ 2 * n)
unfolding bit_len_from
bit_len_from-bounds zero n h pos = absurd (omega arith)
bit_len_from-bounds (suc fuel) n h pos = ground (
  arith,
  bit_len_from-zero fuel,
  bit_len_from-bounds fuel (n / 2) (omega arith),
  pow-suc 2 (bit_len_from fuel (n / 2)),
)

-- `2 ^ (b - 1) ≤ n < 2 ^ b` for the bit length `b` of a positive number.
pub bit_len-bounds : (n : ℕ) → 0 < n → (n < 2 ^ bit_len n) × (2 ^ bit_len n ≤ 2 * n)
unfolding bit_len
bit_len-bounds n pos = bit_len_from-bounds n n (le_refl n) pos

pub pow-add : (b m n : ℕ) → b ^ (m + n) ≡ b ^ m * b ^ n
pow-add b m zero = rw (add-zero, pow-zero, mul-one)
pow-add b m (suc n) =
    rw (add-suc m n, pow-suc b (m + n), pow-suc b n, pow-add b m n) (mul_assoc (b ^ m) (b ^ n) b)

-- Bytes are eight bits each.
pub pow-bytes : (n : ℕ) → 256 ^ n ≡ 2 ^ (8 * n)
pow-bytes zero = refl
pow-bytes (suc n) =
    let e : 8 * suc n ≡ 8 * n + 8 = omega arith in
    rw (e, pow-add 2 (8 * n) 8, pow-suc 256 n, pow-bytes n)
