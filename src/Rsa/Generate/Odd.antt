-- ===== src/Rsa/Generate/Odd.antt =====
-- Key generation for an odd number of bits.
use native.Mathlib.Nat.{pow-suc}
use eu_trust_sdk.Base.{
  ℕ, zero, suc, ◌+◌, ◌-◌, ◌*◌, ◌/◌, ◌%◌, ◌^◌, ◌<◌, ◌≤◌, ◌≡◌, ◌≢◌, refl, subst, ◌∙◌, arith, some,
  none, Option, Option-cases, Bool-cases, inl, inr, ◌==◌, ◌⊎◌,
}
use eu_trust_sdk.Rsa.Arith.{bit_len, bit_len-bounds}
use eu_trust_sdk.Rsa.Error.{ok, err, Error}
use eu_trust_sdk.Rsa.Keys.{KeyPair}
use eu_trust_sdk.Rsa.Generate.{
  Primes, IsPrimes, Run, ◌>>◌, prime_bits, key_of_primes, generate_safe_prime, generate_key,
}
use eu_trust_sdk.Rsa.Generate.Safe.{IsSafeKey, safe_short, modulus_pos, generate_key-IsSafeKey}

-- Two safe primes of one length less than half an odd number of bits have too short a product.
odd-not-IsSafeKey : (bits : ℕ) (kp : KeyPair) → bits % 2 ≡ 1 → ¬ IsSafeKey bits kp
unfolding prime_bits
odd-not-IsSafeKey bits kp odd safe = elim (Bool-cases (bits / 2 == 0)) [
  | inl none_left ↦
      let empty : bits / 2 ≡ 0 = ground arith in
      absurd (
        omega (
          arith,
          safe.safe_p.inner,
          subst (λ (t : ℕ). safe.safe_p.p' < 2 ^ (t - 1)) empty safe.safe_p.high,
        ))
  | inr some_left ↦
      let short = safe_short (bits / 2 - 1) kp.p kp.q safe.safe_p safe.safe_q in
      let half : bits ≡ suc (2 * (bits / 2 - 1 + 1)) = ground (arith, some_left, odd) in
      let size : bit_len kp.n ≡ suc (2 * (bits / 2 - 1 + 1)) = safe.size ∙ half in
      absurd (
        omega (
          arith,
          short,
          safe.product,
          subst (λ (t : ℕ). 2 ^ t ≤ 2 * kp.n) size
              (bit_len-bounds kp.n (omega (arith, modulus_pos bits kp safe))).1,
          pow-suc 2 (2 * (bits / 2 - 1 + 1)),
        ))
]

Run-cases {ℓ} :
    {A : Type ℓ} (run : Run A)
    → (run ≡ none)
      ⊎ ((x : Error) × (run ≡ some (err x)))
      ⊎ ((a : A) × (after : ℕ) × (run ≡ some (ok (a, after))))
Run-cases none = inl refl
Run-cases (some (err x)) = inr (inl (x, refl))
Run-cases (some (ok (a, after))) = inr (inr (a, after, refl))

module _ (primes : Primes) where
  -- Where no call fails, neither loop reports an error.
  generate_safe_prime-not-err :
      (fuel bits call : ℕ) (failure : Error)
      → ((i : ℕ) → primes.rand_prime bits i ≢ none)
      → generate_safe_prime primes fuel bits call ≢ some (err failure)
  unfolding generate_safe_prime
  generate_safe_prime-not-err zero bits call failure read = λ e. cc e
  generate_safe_prime-not-err (suc fuel) bits call failure read =
      elim (Option-cases (primes.rand_prime bits call)) [
        | inl failed ↦ absurd (read call failed)
        | inr (p', drawn) ↦ elim (Bool-cases (primes.probably_prime (p' * 2 + 1))) [
          | inl prime ↦ rw (drawn, prime, generate_safe_prime) (λ e. cc e)
          | inr composite ↦
              rw (drawn, composite, generate_safe_prime)
                (generate_safe_prime-not-err fuel bits (call + 1) failure read)
        ]
      ]

  >>-not-err {ℓ κ} :
      {A : Type ℓ} {B : Type κ} (first : Run A) (next : A × ℕ → Run B) (failure : Error)
      → first ≢ some (err failure)
      → ((a : A × ℕ) → next a ≢ some (err failure))
      → (first >> next) ≢ some (err failure)
  >>-not-err none next failure h g = λ e. cc e
  >>-not-err (some (err x)) next failure h g = λ e. h cc
  >>-not-err (some (ok a)) next failure h g = g a

  continued :
      (key : Option KeyPair) (rest : Run KeyPair) (failure : Error) (after : ℕ)
      → rest ≢ some (err failure)
      → (elim key [ none ↦ rest | some made ↦ some (ok (made, after)) ]) ≢ some (err failure)
  continued none rest failure after h = h
  continued (some made) rest failure after h = λ e. cc e

  generate_key-not-err :
      (fuel bits call : ℕ) (failure : Error)
      → ((i : ℕ) → primes.rand_prime (prime_bits bits) i ≢ none)
      → generate_key primes fuel bits call ≢ some (err failure)
  unfolding generate_key
  generate_key-not-err zero bits call failure read = λ e. cc e
  generate_key-not-err (suc fuel) bits call failure read =
      >>-not-err _ _ failure
        (generate_safe_prime-not-err (suc fuel) (prime_bits bits) call failure read)
        (λ (p, after_p).
          >>-not-err _ _ failure
            (generate_safe_prime-not-err (suc fuel) (prime_bits bits) after_p failure read)
            (λ (q, after_q).
              continued (key_of_primes bits p q) (generate_key primes fuel bits after_q) failure
                after_q (generate_key-not-err fuel bits after_q failure read)))

  -- For an odd number of bits `GenerateKey` makes no key: as long as no call of `rand.Prime` fails, it
  -- never ends, however long it runs.
  pub generate_key_odd :
      (fuel bits call : ℕ)
      → IsPrimes primes
      → bits % 2 ≡ 1
      → ((i : ℕ) → primes.rand_prime (prime_bits bits) i ≢ none)
      → generate_key primes fuel bits call ≡ none
  generate_key_odd fuel bits call laws odd read =
      elim (Run-cases (generate_key primes fuel bits call)) [
        | inl running ↦ running
        | inr (inl (failure, failed)) ↦
            absurd (generate_key-not-err fuel bits call failure read failed)
        | inr (inr (kp, after, returned)) ↦ absurd (
            odd-not-IsSafeKey bits kp odd
              (generate_key-IsSafeKey primes laws fuel bits call kp after returned))
      ]
