-- ===== src/Rsa/Generate/Ends.antt =====
-- When the loops of key generation end.
use native.Mathlib.Nat.{pow-le-pow_right}
use eu_trust_sdk.Base.{
  ℕ, zero, suc, ◌+◌, ◌-◌, ◌*◌, ◌/◌, ◌%◌, ◌^◌, ◌<◌, ◌≤◌, ◌≡◌, ◌≢◌, refl, ap, subst, sym, ◌∙◌, arith,
  some, none, true, false, Option, Option-cases, Bool-cases, inl, inr, ==_refl, ◌==◌,
}
use eu_trust_sdk.Rsa.Arith.{bit_len, mod_inverse, mod_inverse_complete}
use eu_trust_sdk.Rsa.Arith.Euclid.{inverse_exists}
use eu_trust_sdk.Rsa.Error.{ok}
use eu_trust_sdk.Rsa.Keys.{KeyPair}
use eu_trust_sdk.Rsa.Generate.{
  Primes, IsPrimes, Run, prime_bits, key_of_primes, generate_safe_prime, generate_key,
}
use eu_trust_sdk.Rsa.Generate.Runs.{generate_safe_prime-eq-ok}
use eu_trust_sdk.Rsa.Generate.Length.{bit_len_eq}
use eu_trust_sdk.Rsa.Generate.Safe.{IsSafePrime, safe_short, safe_long, IsFound-IsSafePrime}
use eu_trust_sdk.Rsa.Generate.Signs.{totient-IsCoprime, totient-gt}

module _ (bits : ℕ) (even : bits % 2 ≡ 0) (long : 36 ≤ bits) where
  above_exponent : (p' : ℕ) → 3 * 2 ^ (prime_bits bits - 2) ≤ p' → 65537 < p'
  unfolding prime_bits
  above_exponent p' low = omega (
    arith,
    low,
    pow-le-pow_right {n = 2} (omega arith) {i = 15} {j = bits / 2 - 1 - 2} (omega arith),
  )

  product_size :
      (p q : ℕ)
      → IsSafePrime (prime_bits bits) p
      → IsSafePrime (prime_bits bits) q
      → bit_len (p * q) ≡ bits
  unfolding prime_bits
  product_size p q safe_p safe_q =
      let b = bits / 2 - 1 in
      let full : 2 * (b + 1) ≡ suc (2 * (b - 2) + 5) = omega arith in
      let all : suc (2 * (b - 2) + 5) ≡ bits = omega arith in
      bit_len_eq (p * q) (2 * (b - 2) + 5) (safe_long b p q safe_p safe_q)
        (subst (λ (t : ℕ). p * q < 2 ^ t) full (safe_short b p q safe_p safe_q))
      ∙ all

  exponent_invertible :
      (p q : ℕ)
      → IsSafePrime (prime_bits bits) p
      → IsSafePrime (prime_bits bits) q
      → mod_inverse 65537 ((p - 1) * (q - 1)) ≢ none
  exponent_invertible p q safe_p safe_q =
      let coprime =
        totient-IsCoprime 65537 p q (prime_bits bits) safe_p safe_q refl
          (above_exponent safe_p.p' safe_p.low) (above_exponent safe_q.p' safe_q.low) in
      let (y, below, inverse) =
        inverse_exists 65537 ((p - 1) * (q - 1)) (omega arith)
          (totient-gt (prime_bits bits) p q safe_p safe_q) coprime in
      mod_inverse_complete 65537 ((p - 1) * (q - 1)) y below inverse

  key_of_primes_total :
      (p q : ℕ)
      → IsSafePrime (prime_bits bits) p
      → IsSafePrime (prime_bits bits) q
      → p ≢ q
      → (kp : KeyPair) × (key_of_primes bits p q ≡ some kp)
  unfolding key_of_primes
  key_of_primes_total p q safe_p safe_q differ =
      let apart : (p == q) ≡ false = ground arith in
      elim (Option-cases (mod_inverse 65537 ((p - 1) * (q - 1)))) [
        | inl missing ↦ absurd (exponent_invertible p q safe_p safe_q missing)
        | inr (d, found) ↦ (
          record { n = p * q; e = 65537; d = d; p = p; q = q; phi = (p - 1) * (q - 1) },
          rw (apart, product_size p q safe_p safe_q, ==_refl bits, found, key_of_primes) refl,
        )
      ]

module _ (primes : Primes) where
  -- The call `i` gives the half of a safe prime.
  abbrev pub IsSuitable : (bits i : ℕ) → Type 0
  IsSuitable bits i =
      (p' : ℕ) × (primes.rand_prime bits i ≡ some p') × (primes.probably_prime (p' * 2 + 1) ≡ true)

  generate_safe_prime_total :
      (fuel bits call j : ℕ)
      → ((i : ℕ) → primes.rand_prime bits i ≢ none)
      → call ≤ j
      → j < call + fuel
      → IsSuitable bits j
      → (p : ℕ) × (after : ℕ) × (generate_safe_prime primes fuel bits call ≡ some (ok (p, after)))
        × (after ≤ j + 1)
  unfolding generate_safe_prime
  generate_safe_prime_total zero bits call j read lo hi suitable = absurd (omega arith)
  generate_safe_prime_total (suc fuel) bits call j read lo hi suitable =
      elim (Option-cases (primes.rand_prime bits call)) [
        | inl failed ↦ absurd (read call failed)
        | inr (p', drawn) ↦ elim (Bool-cases (primes.probably_prime (p' * 2 + 1))) [
          | inl prime ↦
              (p' * 2 + 1, call + 1, rw (drawn, prime, generate_safe_prime) refl, omega arith)
          | inr composite ↦
              let later : call ≢ j = λ e. cc (e, drawn, composite, suitable.1, suitable.2) in
              let (p, after, found, bound) =
                generate_safe_prime_total fuel bits (call + 1) j read (omega arith) (omega arith)
                  suitable in
              (p, after, rw (drawn, composite, generate_safe_prime) found, bound)
        ]
      ]

made_key :
    (key : Option KeyPair) (rest : Run KeyPair) (kp : KeyPair) (after : ℕ)
    → key ≡ some kp
    → (elim key [ none ↦ rest | some made ↦ some (ok (made, after)) ]) ≡ some (ok (kp, after))
made_key none rest kp after e = cc
made_key (some made) rest kp after e = cc

one_round :
    (primes : Primes) (fuel bits call after_p after_q p q : ℕ) (kp : KeyPair)
    → generate_safe_prime primes (suc fuel) (prime_bits bits) call ≡ some (ok (p, after_p))
    → generate_safe_prime primes (suc fuel) (prime_bits bits) after_p ≡ some (ok (q, after_q))
    → key_of_primes bits p q ≡ some kp
    → generate_key primes (suc fuel) bits call ≡ some (ok (kp, after_q))
unfolding generate_key
one_round primes fuel bits call after_p after_q p q kp run_p run_q key =
    let made =
      made_key (key_of_primes bits p q) (generate_key primes fuel bits after_q) kp after_q key in
    rw (run_p, run_q) made

-- `GenerateKey` ends. For an even number of bits from 36 on, where no call of `rand.Prime` fails,
-- the next `2 * window` calls give no prime twice, and among any `window` calls in a row one gives the
-- half of a safe prime, it returns a key within `2 * window` calls.
pub generate_key_total :
    (primes : Primes) (window bits call : ℕ)
    → IsPrimes primes
    → bits % 2 ≡ 0
    → 36 ≤ bits
    → ((i : ℕ) → primes.rand_prime (prime_bits bits) i ≢ none)
    → ((i j : ℕ)
        → call ≤ i
        → i < j
        → j < call + 2 * window
        → primes.rand_prime (prime_bits bits) i ≢ primes.rand_prime (prime_bits bits) j)
    → ((i : ℕ) → (j : ℕ) × (i ≤ j) × (j < i + window) × IsSuitable primes (prime_bits bits) j)
    → (kp : KeyPair) × (after : ℕ) × (generate_key primes window bits call ≡ some (ok (kp, after)))
      × (after ≤ call + 2 * window)
generate_key_total primes zero bits call laws even long read fresh supply =
    let (j, lo, hi, _) = supply 0 in absurd (omega arith)
generate_key_total primes (suc fuel) bits call laws even long read fresh supply =
    let b = prime_bits bits in
    let (i, lo_i, hi_i, suit_i) = supply call in
    let (p, after_p, run_p, bound_p) =
      generate_safe_prime_total primes (suc fuel) b call i read lo_i hi_i suit_i in
    let (j, lo_j, hi_j, suit_j) = supply after_p in
    let (q, after_q, run_q, bound_q) =
      generate_safe_prime_total primes (suc fuel) b after_p j read lo_j hi_j suit_j in
    let found_p = generate_safe_prime-eq-ok primes (suc fuel) b call p after_p run_p in
    let found_q = generate_safe_prime-eq-ok primes (suc fuel) b after_p q after_q run_q in
    let differ : p ≢ q = λ e.
      let same : found_p.p' ≡ found_q.p' = omega (arith, e, found_p.double, found_q.double) in
      fresh found_p.at found_q.at found_p.no_earlier
        (omega (arith, found_p.next, found_q.no_earlier))
        (omega (arith, bound_p, bound_q, found_q.next))
        (found_p.drawn ∙ ap some same ∙ sym found_q.drawn) in
    let (kp, key) =
      key_of_primes_total bits even long p q
        (IsFound-IsSafePrime primes laws b call p after_p found_p)
        (IsFound-IsSafePrime primes laws b after_p q after_q found_q) differ in
    (
      kp,
      after_q,
      one_round primes fuel bits call after_p after_q p q kp run_p run_q key,
      omega (arith, bound_p, bound_q),
    )
