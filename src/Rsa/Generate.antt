-- ===== src/Rsa/Generate.antt =====
-- Key generation of internal/rsapbssa/rsapbssa.go: `GenerateKey` and `generateSafePrime`. The calls of
-- `rand.Prime` are numbered from 0 over a run, and a loop runs on fuel: no result is a loop that still
-- goes on.
pub mod Runs
pub mod Length
pub mod Safe
pub mod Signs
pub mod Completes
pub mod Ends
pub mod Odd
use eu_trust_sdk.Base.{
  ℕ, zero, suc, ◌+◌, ◌-◌, ◌*◌, ◌/◌, ◌^◌, ◌≤◌, ◌<◌, ◌≡◌, Bool, true, not, Option, none, some, ◌==◌,
  if◌then◌else◌,
}
use eu_trust_sdk.Rsa.Arith.{bit_len, mod_inverse}
use eu_trust_sdk.Rsa.Arith.Euclid.{IsPrime}
use eu_trust_sdk.Rsa.Error.{Result, ok, err, read_error}
use eu_trust_sdk.Rsa.Keys.{KeyPair}

-- `rand.Prime(rand.Reader, bits)` at its `call`-th call, where `none` is an error of the source of
-- random bytes or of too few bits, and `ProbablyPrime(20)`.
pub record Primes : Type 0 where
  pub rand_prime : (bits call : ℕ) → Option ℕ
  pub probably_prime : ℕ → Bool

-- What the two functions document: a prime of the given length with its two top bits set, or an error
-- where fewer than 2 bits are asked for; and an answer that is right (it is but for a chance of one
-- in 4^20).
pub record IsPrimes (primes : Primes) : Type 0 where
  pub rand_prime_IsPrime : (bits call p : ℕ) → primes.rand_prime bits call ≡ some p → IsPrime p
  pub rand_prime_range :
      (bits call p : ℕ)
      → primes.rand_prime bits call ≡ some p
      → (3 * 2 ^ (bits - 2) ≤ p) × (p < 2 ^ bits)
  pub rand_prime_few : (bits call : ℕ) → bits < 2 → primes.rand_prime bits call ≡ none
  pub probably_prime_sound : (p : ℕ) → primes.probably_prime p ≡ true → IsPrime p

-- A finished loop has a value or an error, and the number of the next call.
abbrev pub Run {ℓ} : Type ℓ → Type ℓ
Run A = Option (Result (A × ℕ))

infixl 5 ◌>>◌
abbrev pub ◌>>◌ {ℓ κ} : {A : Type ℓ} {B : Type κ} → Run A → (A × ℕ → Run B) → Run B
none >> next = none
some (err failure) >> next = some (err failure)
some (ok value) >> next = next value

-- `bits/2 - 1`
unfoldable pub prime_bits : ℕ → ℕ
prime_bits bits = bits / 2 - 1

-- The key of two primes, or none where the primes are equal, their product has another length, or the
-- exponent has no inverse: the loop goes on.
unfoldable pub key_of_primes : ℕ → ℕ → ℕ → Option KeyPair
key_of_primes bits p q =
    if p == q
    then none
    else if not (bit_len (p * q) == bits)
    then none
    else let phi = (p - 1) * (q - 1) in
      elim (mod_inverse 65537 phi) [
        | none ↦ none
        | some d ↦ some (record { n = p * q; e = 65537; d = d; p = p; q = q; phi = phi })
      ]

module _ (primes : Primes) where
  unfoldable pub generate_safe_prime : (fuel bits call : ℕ) → Run ℕ
  generate_safe_prime zero bits call = none
  generate_safe_prime (suc fuel) bits call =
      let rest = generate_safe_prime fuel bits (call + 1) in
      elim (primes.rand_prime bits call) [
        | none ↦ some (err read_error)
        | some p' ↦
            let p = p' * 2 + 1 in if primes.probably_prime p then some (ok (p, call + 1)) else rest
      ]

  -- Both loops have the same fuel to start with.
  unfoldable pub generate_key : (fuel bits call : ℕ) → Run KeyPair
  unfolding generate_safe_prime
  generate_key zero bits call = none
  generate_key (suc fuel) bits call =
      generate_safe_prime (suc fuel) (prime_bits bits) call >> λ (p, after_p).
      generate_safe_prime (suc fuel) (prime_bits bits) after_p >> λ (q, after_q).
      let rest = generate_key fuel bits after_q in
      elim (key_of_primes bits p q) [ none ↦ rest | some kp ↦ some (ok (kp, after_q)) ]
