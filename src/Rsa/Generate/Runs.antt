-- ===== src/Rsa/Generate/Runs.antt =====
-- What a finished run of `generateSafePrime` or of `GenerateKey` has drawn.
use eu_trust_sdk.Base.{
  ℕ, zero, suc, ◌+◌, ◌-◌, ◌*◌, ◌≤◌, ◌≡◌, ◌≢◌, refl, ap, subst, ◌∙◌, true, Option, none, some, arith,
  ◌==◌, Bool-cases, Option-cases, inl, inr, ◌⊎◌,
}
use eu_trust_sdk.Rsa.Arith.{bit_len, mod_inverse}
use eu_trust_sdk.Rsa.Error.{ok, err}
use eu_trust_sdk.Rsa.Keys.{KeyPair}
use eu_trust_sdk.Rsa.Generate.{
  Primes, Run, ◌>>◌, prime_bits, key_of_primes, generate_safe_prime, generate_key,
}

-- What a key of two primes is made of.
pub record IsKeyOf (bits p q : ℕ) (kp : KeyPair) : Type 0 where
  pub differ : p ≢ q
  pub size : bit_len (p * q) ≡ bits
  pub d : ℕ
  pub inverse : mod_inverse 65537 ((p - 1) * (q - 1)) ≡ some d
  pub made : kp ≡ record { n = p * q; e = 65537; d = d; p = p; q = q; phi = (p - 1) * (q - 1) }

pub key_of_primes-eq-some :
    (bits p q : ℕ) (kp : KeyPair) → key_of_primes bits p q ≡ some kp → IsKeyOf bits p q kp
unfolding key_of_primes
key_of_primes-eq-some bits p q kp = elim (Bool-cases (p == q)) [
  | inl same ↦ rw (same, key_of_primes) (λ h. cc h)
  | inr differ ↦ elim (Bool-cases (bit_len (p * q) == bits)) [
    | inr short ↦ rw (differ, short, key_of_primes) (λ h. cc h)
    | inl long ↦ elim (Option-cases (mod_inverse 65537 ((p - 1) * (q - 1)))) [
      | inl no_inverse ↦ rw (differ, long, no_inverse, key_of_primes) (λ h. cc h)
      | inr (d, inverse) ↦
          rw (differ, long, inverse, key_of_primes)
            (λ h. record {
              differ = λ e. ground (arith, differ);
              size = ground (arith, long);
              d = d;
              inverse = inverse;
              made = cc h;
            })
    ]
  ]
]

module _ (primes : Primes) where
  -- The draw that gave a safe prime.
  pub record IsFound (bits call p after : ℕ) : Type 0 where
    pub at : ℕ
    pub p' : ℕ
    pub drawn : primes.rand_prime bits at ≡ some p'
    pub double : p ≡ p' * 2 + 1
    pub tested : primes.probably_prime p ≡ true
    pub no_earlier : call ≤ at
    pub next : after ≡ at + 1

  later-IsFound :
      (bits call p after : ℕ) → IsFound bits (call + 1) p after → IsFound bits call p after
  later-IsFound bits call p after later = record {
    at = later.at;
    p' = later.p';
    drawn = later.drawn;
    double = later.double;
    tested = later.tested;
    no_earlier = omega (arith, later.no_earlier);
    next = later.next;
  }

  pub generate_safe_prime-eq-ok :
      (fuel bits call p after : ℕ)
      → generate_safe_prime primes fuel bits call ≡ some (ok (p, after))
      → IsFound bits call p after
  unfolding generate_safe_prime
  generate_safe_prime-eq-ok zero bits call p after = λ h. cc h
  generate_safe_prime-eq-ok (suc fuel) bits call p after =
      elim (Option-cases (primes.rand_prime bits call)) [
        | inl failed ↦ rw (failed, generate_safe_prime) (λ h. cc h)
        | inr (p', drawn) ↦ elim (Bool-cases (primes.probably_prime (p' * 2 + 1))) [
          | inl prime ↦
              rw (drawn, prime, generate_safe_prime)
                (λ h.
                  let double : p ≡ p' * 2 + 1 = cc h in
                  record {
                    at = call;
                    p' = p';
                    drawn = drawn;
                    double = double;
                    tested = ap primes.probably_prime double ∙ prime;
                    no_earlier = omega arith;
                    next = cc h;
                  })
          | inr composite ↦
              rw (drawn, composite, generate_safe_prime)
                (λ h.
                  later-IsFound bits call p after
                    (generate_safe_prime-eq-ok fuel bits (call + 1) p after h))
        ]
      ]

  >>-eq-ok {ℓ κ} :
      {A : Type ℓ} {B : Type κ} (first : Run A) (next : A × ℕ → Run B) (out : B) (last : ℕ)
      → (first >> next) ≡ some (ok (out, last))
      → (a : A) × (after : ℕ) × (first ≡ some (ok (a, after)))
        × (next (a, after) ≡ some (ok (out, last)))
  >>-eq-ok none next out last e = cc
  >>-eq-ok (some (err failure)) next out last e = cc
  >>-eq-ok (some (ok (a, after))) next out last e = (a, after, refl, e)

  found_key :
      (key : Option KeyPair) (rest : Run KeyPair) (kp : KeyPair) (after_q after : ℕ)
      → (elim key [ none ↦ rest | some made ↦ some (ok (made, after_q)) ]) ≡ some (ok (kp, after))
      → ((key ≡ some kp) × (after_q ≡ after)) ⊎ (rest ≡ some (ok (kp, after)))
  found_key none rest kp after_q after e = inr e
  found_key (some made) rest kp after_q after e = inl (cc, cc)

  -- The two draws that gave a key, in their order.
  pub record IsGenerated (bits call : ℕ) (kp : KeyPair) (after : ℕ) : Type 0 where
    pub p : ℕ
    pub q : ℕ
    pub after_p : ℕ
    pub start : ℕ
    pub found_p : IsFound (prime_bits bits) start p after_p
    pub found_q : IsFound (prime_bits bits) after_p q after
    pub key : key_of_primes bits p q ≡ some kp
    pub no_earlier : call ≤ start

  pub generate_key-eq-ok :
      (fuel bits call : ℕ) (kp : KeyPair) (after : ℕ)
      → generate_key primes fuel bits call ≡ some (ok (kp, after))
      → IsGenerated bits call kp after
  unfolding generate_key
  generate_key-eq-ok zero bits call kp after h = cc
  generate_key-eq-ok (suc fuel) bits call kp after h =
      let (p, after_p, run_p, h1) =
        >>-eq-ok (generate_safe_prime primes (suc fuel) (prime_bits bits) call) _ kp after h in
      let (q, after_q, run_q, h2) =
        >>-eq-ok (generate_safe_prime primes (suc fuel) (prime_bits bits) after_p) _ kp after h1 in
      let found_p = generate_safe_prime-eq-ok (suc fuel) (prime_bits bits) call p after_p run_p in
      let found_q =
        generate_safe_prime-eq-ok (suc fuel) (prime_bits bits) after_p q after_q run_q in
      elim (found_key (key_of_primes bits p q) (generate_key primes fuel bits after_q) kp after_q
        after h2) [
          | inl (key, last) ↦ record {
            p = p;
            q = q;
            after_p = after_p;
            start = call;
            found_p = found_p;
            found_q = subst (IsFound (prime_bits bits) after_p q) last found_q;
            key = key;
            no_earlier = omega arith;
          }
          | inr later ↦
              let rest = generate_key-eq-ok fuel bits after_q kp after later in
              record {
                p = rest.p;
                q = rest.q;
                after_p = rest.after_p;
                start = rest.start;
                found_p = rest.found_p;
                found_q = rest.found_q;
                key = rest.key;
                no_earlier = omega (
                  arith, rest.no_earlier, found_p.no_earlier, found_p.next, found_q.no_earlier,
                  found_q.next,
                );
              }
        ]
