-- ===== src/Rsa/Generate/Safe.antt =====
-- The keys that `GenerateKey` makes.
use native.Mathlib.Nat.{mul-le-mul}
use eu_trust_sdk.Base.{
  ℕ, ◌+◌, ◌-◌, ◌*◌, ◌%◌, ◌^◌, ◌<◌, ◌≤◌, ◌≡◌, ◌≢◌, refl, subst, sym, some, arith,
}
use eu_trust_sdk.Rsa.Arith.{bit_len, mod_inverse_sound}
use eu_trust_sdk.Rsa.Arith.Euclid.{IsPrime}
use eu_trust_sdk.Rsa.Error.{ok}
use eu_trust_sdk.Rsa.Keys.{KeyPair}
use eu_trust_sdk.Rsa.Generate.{Primes, IsPrimes, prime_bits, generate_key}
use eu_trust_sdk.Rsa.Generate.Length.{product_short, product_long}
use eu_trust_sdk.Rsa.Generate.Runs.{IsFound, IsKeyOf, key_of_primes-eq-some, generate_key-eq-ok}

-- `p = 2 * p' + 1`, both prime, where `p'` has its two top bits of `bits` set.
pub record IsSafePrime (bits p : ℕ) : Type 0 where
  pub p' : ℕ
  pub double : p ≡ p' * 2 + 1
  pub outer : IsPrime p
  pub inner : IsPrime p'
  pub low : 3 * 2 ^ (bits - 2) ≤ p'
  pub high : p' < 2 ^ bits

-- The product of two safe primes of `b + 1` bits, between two powers.
pub safe_short : (b p q : ℕ) → IsSafePrime b p → IsSafePrime b q → p * q < 2 ^ (2 * (b + 1))
safe_short b p q safe_p safe_q =
    rw (safe_p.double, safe_q.double) (product_short b safe_p.p' safe_q.p' safe_p.high safe_q.high)

pub safe_long : (b p q : ℕ) → IsSafePrime b p → IsSafePrime b q → 2 ^ (2 * (b - 2) + 5) ≤ p * q
safe_long b p q safe_p safe_q =
    rw (safe_p.double, safe_q.double)
      (product_long (b - 2) safe_p.p' safe_q.p' safe_p.low safe_q.low)

-- The product of two different safe primes, of the length that was asked for, with two exponents that
-- go together.
pub record IsSafeKey (bits : ℕ) (kp : KeyPair) : Type 0 where
  pub safe_p : IsSafePrime (prime_bits bits) kp.p
  pub safe_q : IsSafePrime (prime_bits bits) kp.q
  pub differ : kp.p ≢ kp.q
  pub product : kp.n ≡ kp.p * kp.q
  pub size : bit_len kp.n ≡ bits
  pub totient : kp.phi ≡ (kp.p - 1) * (kp.q - 1)
  pub exponent : kp.e ≡ 65537
  pub inverse : kp.e * kp.d % kp.phi ≡ 1 % kp.phi
  pub reduced : kp.d < kp.phi

-- The modulus is positive.
pub modulus_pos : (bits : ℕ) (kp : KeyPair) → IsSafeKey bits kp → 0 < kp.n
modulus_pos bits kp safe = omega (
  arith,
  safe.product,
  product_pos kp.p kp.q (omega (arith, safe.safe_p.outer)) (omega (arith, safe.safe_q.outer)),
)
  where
    product_pos : (p q : ℕ) → 0 < p → 0 < q → 0 < p * q
    product_pos p q hp hq = omega (arith, mul-le-mul {n₁ = 1} {m₁ = 1} hp hq)

module _ (primes : Primes) (laws : IsPrimes primes) where
  pub IsFound-IsSafePrime :
      (bits call p after : ℕ) → IsFound primes bits call p after → IsSafePrime bits p
  IsFound-IsSafePrime bits call p after found =
      let range = laws.rand_prime_range bits found.at found.p' found.drawn in
      record {
        p' = found.p';
        double = found.double;
        outer = laws.probably_prime_sound p found.tested;
        inner = laws.rand_prime_IsPrime bits found.at found.p' found.drawn;
        low = range.0;
        high = range.1;
      }

  pub IsKeyOf-IsSafeKey :
      (bits p q : ℕ) (kp : KeyPair)
      → IsSafePrime (prime_bits bits) p
      → IsSafePrime (prime_bits bits) q
      → IsKeyOf bits p q kp
      → IsSafeKey bits kp
  IsKeyOf-IsSafeKey bits p q kp safe_p safe_q key =
      let (inverse, reduced) = mod_inverse_sound 65537 ((p - 1) * (q - 1)) key.d key.inverse in
      subst (IsSafeKey bits) (sym key.made) (record {
        safe_p = safe_p;
        safe_q = safe_q;
        differ = key.differ;
        product = refl;
        size = key.size;
        totient = refl;
        exponent = refl;
        inverse = inverse;
        reduced = reduced;
      })

  -- A key that `GenerateKey` returns has two different safe primes, whose halves are primes of half
  -- the length less one bit; its modulus is their product, and as long as was asked for; its public
  -- exponent is 65537, and its private exponent is the inverse of that below `(p - 1) * (q - 1)`.
  pub generate_key-IsSafeKey :
      (fuel bits call : ℕ) (kp : KeyPair) (after : ℕ)
      → generate_key primes fuel bits call ≡ some (ok (kp, after))
      → IsSafeKey bits kp
  generate_key-IsSafeKey fuel bits call kp after h =
      let made = generate_key-eq-ok primes fuel bits call kp after h in
      IsKeyOf-IsSafeKey bits made.p made.q kp
        (IsFound-IsSafePrime (prime_bits bits) made.start made.p made.after_p made.found_p)
        (IsFound-IsSafePrime (prime_bits bits) made.after_p made.q after made.found_q)
        (key_of_primes-eq-some bits made.p made.q kp made.key)
