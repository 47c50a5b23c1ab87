-- ===== src/Rsa/Generate/Signs.antt =====
-- What a key of safe primes gives the protocol: a private exponent for every metadata, and a
-- signature of every message in range.
use native.Mathlib.Nat.{mod-eq_of_lt, mul-le-mul, mod-lt, pow-suc}
use eu_trust_sdk.Base.{
  ◌==◌, Bool-cases, ℕ, suc, ◌+◌, ◌-◌, ◌*◌, ◌/◌, ◌%◌, ◌^◌, ◌<◌, ◌≤◌, ◌≡◌, refl, ap, subst, sym, ◌∙◌,
  arith, some, none, Option, Option-cases, inl, inr, ==_refl, Text, leb, false,
}
use eu_trust_sdk.Base.Bytes.{to_int, fill_bytes}
use eu_trust_sdk.Crypto.{Crypto, IsCrypto}
use eu_trust_sdk.Rsa.Arith.{
  bit_len, mod_exp, mod_inverse, mod_inverse_sound, mod_inverse_complete, pow-bytes,
}
use eu_trust_sdk.Rsa.Arith.Euclid.{
  IsPrime, IsCoprime, inverse_exists, mul-IsCoprime, below-IsCoprime, odd-IsCoprime,
}
use eu_trust_sdk.Rsa.Arith.Recover.{rsa_recovers}
use eu_trust_sdk.Rsa.Error.{Result, ok, err, not_coprime}
use eu_trust_sdk.Rsa.Keys.{
  KeyPair, DerivedPublicKey, public_key, modulus_len, derive_public_key, derive_key_pair,
}
use eu_trust_sdk.Rsa.Keys.Derived.{derive_public_key_odd}
use eu_trust_sdk.Rsa.Protocol.{sign_checked, blind_sign}
use eu_trust_sdk.Rsa.Generate.{prime_bits}
use eu_trust_sdk.Rsa.Generate.Safe.{IsSafePrime, IsSafeKey}

-- An odd number below both halves has no divisor in common with `(p - 1) * (q - 1)`.
pub totient-IsCoprime :
    (a p q bits : ℕ) (safe_p : IsSafePrime bits p) (safe_q : IsSafePrime bits q)
    → a % 2 ≡ 1
    → a < safe_p.p'
    → a < safe_q.p'
    → IsCoprime a ((p - 1) * (q - 1))
totient-IsCoprime a p q bits safe_p safe_q odd below_p below_q =
    let pos : 0 < a = omega arith in
    let half : (x r : ℕ) → x ≡ r * 2 + 1 → IsPrime r → a < r → (0 < x - 1) × IsCoprime a (x - 1) =
      λ x r e prime small.
        let twice : r * 2 ≡ x - 1 = omega arith in
        (
          omega arith,
          subst (IsCoprime a) twice (
              mul-IsCoprime a r 2 (omega arith) pos (below-IsCoprime r a prime pos small)
                (odd-IsCoprime a odd)),
        ) in
    let (pos_p, coprime_p) = half p safe_p.p' safe_p.double safe_p.inner below_p in
    let (_, coprime_q) = half q safe_q.p' safe_q.double safe_q.inner below_q in
    mul-IsCoprime a (p - 1) (q - 1) pos_p pos coprime_p coprime_q

pub totient-gt : (bits p q : ℕ) → IsSafePrime bits p → IsSafePrime bits q → 1 < (p - 1) * (q - 1)
totient-gt bits p q safe_p safe_q =
    let h : 2 * 2 ≤ (p - 1) * (q - 1) =
      mul-le-mul {n₁ = 2} {m₁ = 2} (omega (arith, safe_p.double, safe_p.inner.0))
        (omega (arith, safe_q.double, safe_q.inner.0)) in
    omega (arith, h)

-- The end of `derive_key_pair`.
abbrev exponents_of : ℕ → Option ℕ → Result (ℕ × ℕ)
exponents_of e none = err not_coprime
exponents_of e (some d') = ok (e, d')

module _ (c : Crypto) (laws : IsCrypto c) (bits : ℕ) (kp : KeyPair) (safe : IsSafeKey bits kp)
    (whole : bits % 16 ≡ 0) where
  some_bits : 16 ≤ bits
  unfolding prime_bits
  some_bits = elim (Bool-cases (bits == 0)) [
    | inl none_left ↦
        let empty : bits ≡ 0 = ground arith in
        absurd (
          omega (
            arith,
            safe.safe_p.inner,
            subst (λ (t : ℕ). safe.safe_p.p' < 2 ^ (t / 2 - 1)) empty safe.safe_p.high,
          ))
    | inr some_left ↦ ground (arith, some_left, whole)
  ]

  -- An exponent of a quarter of what half of the modulus holds is below both halves of the primes.
  below_halves :
      (x r : ℕ) → 4 * x < 256 ^ (modulus_len kp.n / 2) → 3 * 2 ^ (prime_bits bits - 2) ≤ r → x < r
  unfolding modulus_len prime_bits
  below_halves x r h low =
      let length : (bit_len kp.n + 7) / 8 / 2 ≡ bits / 16 = omega (arith, safe.size) in
      let half : 8 * (bits / 16) ≡ suc (suc (suc (bits / 2 - 1 - 2))) = omega (arith, some_bits) in
      let power : 256 ^ ((bit_len kp.n + 7) / 8 / 2) ≡ 2 ^ suc (suc (suc (bits / 2 - 1 - 2))) =
        ap (λ (t : ℕ). 256 ^ t) length ∙ pow-bytes (bits / 16) ∙ ap (λ (t : ℕ). 2 ^ t) half in
      omega (
        arith,
        power,
        pow-suc 2 (suc (suc (bits / 2 - 1 - 2))),
        pow-suc 2 (suc (bits / 2 - 1 - 2)),
        pow-suc 2 (bits / 2 - 1 - 2),
      )

  inverse_found :
      (e : ℕ)
      → e % 2 ≡ 1
      → 4 * e < 256 ^ (modulus_len kp.n / 2)
      → (d' : ℕ) × (mod_inverse e kp.phi ≡ some d') × (e * d' % kp.phi ≡ 1)
  inverse_found e odd small =
      let safe_p = safe.safe_p in
      let safe_q = safe.safe_q in
      let large : 1 < kp.phi =
        omega (arith, safe.totient, totient-gt (prime_bits bits) kp.p kp.q safe_p safe_q) in
      let coprime : IsCoprime e kp.phi = subst (IsCoprime e) (sym safe.totient) (
        totient-IsCoprime e kp.p kp.q (prime_bits bits) safe_p safe_q odd
          (below_halves e safe_p.p' small safe_p.low)
          (below_halves e safe_q.p' small safe_q.low)) in
      let (y, below, inverse) = inverse_exists e kp.phi (omega arith) large coprime in
      elim (Option-cases (mod_inverse e kp.phi)) [
        | inl missing ↦ absurd (mod_inverse_complete e kp.phi y below inverse missing)
        | inr (d', found) ↦
            (d', found, (mod_inverse_sound e kp.phi d' found).0 ∙ mod-eq_of_lt large)
      ]

  pub derive_key_pair_total :
      (info : Text) (key : DerivedPublicKey)
      → derive_public_key c (public_key kp) info ≡ ok key
      → (d' : ℕ) × (derive_key_pair c kp info ≡ ok (key.e, d')) × (key.e * d' % kp.phi ≡ 1)
  unfolding derive_key_pair
  derive_key_pair_total info key derived =
      let (_, odd, small) = derive_public_key_odd c laws (public_key kp) info key derived in
      let (d', found, inverse) = inverse_found key.e odd small in
      let chosen : exponents_of key.e (mod_inverse key.e kp.phi) ≡ ok (key.e, d') = rw found refl in
      (d', rw derived chosen, inverse)

  -- A key pair as `GenerateKey` makes them, of two different safe primes of half its length, which
  -- is a whole number of 16 bits, signs every message below the modulus for every metadata that the
  -- exponent can be derived for: the signature is as long as the modulus, and its power by the
  -- derived exponent is the message.
  pub blind_sign_total :
      (blinded_msg info : Text) (key : DerivedPublicKey)
      → derive_public_key c (public_key kp) info ≡ ok key
      → to_int blinded_msg < kp.n
      → (s : ℕ) × (blind_sign c kp blinded_msg info ≡ ok (fill_bytes (modulus_len kp.n) s))
        × (s < kp.n)
        × (mod_exp s key.e kp.n ≡ to_int blinded_msg)
  unfolding blind_sign sign_checked mod_exp
  blind_sign_total blinded_msg info key derived small =
      let (d', pair, inverse) = derive_key_pair_total info key derived in
      let m = to_int blinded_msg in
      let in_range : leb kp.n m ≡ false = ground arith in
      let recovered : (m ^ d' % kp.n) ^ key.e % kp.n ≡ m =
        subst (λ (n : ℕ). (m ^ d' % n) ^ key.e % n ≡ m) (sym safe.product)
          (rsa_recovers kp.p kp.q key.e d' m safe.safe_p.outer safe.safe_q.outer safe.differ
            (subst (λ (t : ℕ). key.e * d' % t ≡ 1) safe.totient inverse)
            (subst (λ (t : ℕ). m < t) safe.product small)) in
      (
        m ^ d' % kp.n,
        rw (in_range, pair, recovered, ==_refl m) refl,
        mod-lt (m ^ d') (omega arith),
        recovered,
      )
