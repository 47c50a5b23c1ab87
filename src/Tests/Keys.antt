-- ===== src/Tests/Keys.antt =====
-- Key generation with two known safe primes of 24 bits, drawn in turn.
use eu_trust_sdk.Rsa.Keys.{exponent_of}
use eu_trust_sdk.Rsa.Error.{ok}
use eu_trust_sdk.Base.{
  false, ℕ, refl, arith, if◌then◌else◌, Option, Bool, ◌≡◌, ◌<◌, ◌%◌, ◌==◌, ◌⊎◌, some, true, ◌≢◌,
  none, ◌||◌, Bool-cases, inl, inr, subst, sym, ap, ◌∙◌, ◌*◌, ◌^◌, ◌-◌, ◌≤◌, ◌+◌, ◌∷◌, ◌/◌, [],
}
use eu_trust_sdk.Rsa.Arith.Euclid.{IsPrime}
use eu_trust_sdk.Rsa.Arith.Trial.{undivided, undivided-IsPrime}
use eu_trust_sdk.Rsa.Generate.{Primes, IsPrimes, prime_bits, generate_key}
use eu_trust_sdk.Rsa.Generate.Ends.{generate_key_total, IsSuitable}
use eu_trust_sdk.Rsa.Generate.Safe.{IsSafeKey, modulus_pos, generate_key-IsSafeKey}
use eu_trust_sdk.Rsa.Generate.Signs.{blind_sign_total}
use eu_trust_sdk.Rsa.Generate.Odd.{generate_key_odd}
use eu_trust_sdk.Rsa.Keys.{KeyPair, public_key, modulus_len, derive_public_key}
use eu_trust_sdk.Rsa.Protocol.{blind_sign}
use eu_trust_sdk.Rsa.Arith.{bit_len-bounds, mod_exp}
use eu_trust_sdk.Base.Bytes.{to_int, fill_bytes}
use eu_trust_sdk.Tests.Toy.{toy, toy-IsCrypto}

abbrev half_p : ℕ
half_p = 6291503

abbrev half_q : ℕ
half_q = 6291689

half_p-IsPrime : IsPrime half_p
unfolding undivided
half_p-IsPrime = undivided-IsPrime 2600 half_p refl (omega arith) (omega arith)

half_q-IsPrime : IsPrime half_q
unfolding undivided
half_q-IsPrime = undivided-IsPrime 2600 half_q refl (omega arith) (omega arith)

double_p-IsPrime : IsPrime 12583007
unfolding undivided
double_p-IsPrime = undivided-IsPrime 3600 12583007 refl (omega arith) (omega arith)

double_q-IsPrime : IsPrime 12583379
unfolding undivided
double_q-IsPrime = undivided-IsPrime 3600 12583379 refl (omega arith) (omega arith)

abbrev half_at : ℕ → ℕ
half_at call = if call % 2 == 0 then half_p else half_q

abbrev draw : ℕ → ℕ → Option ℕ
draw bits call = if bits == 23 then some (half_at call) else none

abbrev is_known : ℕ → Bool
is_known p = p == 12583007 || p == 12583379

abbrev known : Primes
known = record { rand_prime = draw; probably_prime = is_known }

half_at-cases : (call : ℕ) → (half_at call ≡ half_p) ⊎ (half_at call ≡ half_q)
half_at-cases call = elim (Bool-cases (call % 2 == 0)) [
  | inl even ↦ inl (rw even refl)
  | inr odd ↦ inr (rw odd refl)
]

draw-eq-some : (bits call p : ℕ) → draw bits call ≡ some p → (bits ≡ 23) × (half_at call ≡ p)
draw-eq-some bits call p = elim (Bool-cases (bits == 23)) [
  | inl asked ↦ rw asked (λ e. (ground arith, cc e))
  | inr other ↦ rw other (λ e. cc e)
]

known-IsPrime : (p : ℕ) → is_known p ≡ true → IsPrime p
known-IsPrime p = elim (Bool-cases (p == 12583007)) [
  | inl same ↦ λ e. subst IsPrime (ground arith) double_p-IsPrime
  | inr other ↦ rw other (λ e. subst IsPrime (ground arith) double_q-IsPrime)
]

known-IsPrimes : IsPrimes known
known-IsPrimes = record {
  rand_prime_IsPrime = λ bits call p e. elim (half_at-cases call) [
    | inl first ↦ subst IsPrime (sym first ∙ (draw-eq-some bits call p e).1) half_p-IsPrime
    | inr second ↦ subst IsPrime (sym second ∙ (draw-eq-some bits call p e).1) half_q-IsPrime
  ];
  rand_prime_range = λ bits call p e.
      let (asked, same) = draw-eq-some bits call p e in
      subst (λ (t : ℕ). (3 * 2 ^ (t - 2) ≤ p) × (p < 2 ^ t)) (sym asked)
        (elim (half_at-cases call) [
          | inl first ↦ (omega (arith, first, same), omega (arith, first, same))
          | inr second ↦ (omega (arith, second, same), omega (arith, second, same))
        ]);
  rand_prime_few =
      λ bits call few. let other : (bits == 23) ≡ false = ground arith in rw other refl;
  probably_prime_sound = known-IsPrime;
}

suitable : (i : ℕ) → IsSuitable known 23 i
suitable i = elim (half_at-cases i) [
  | inl first ↦ (half_p, ap some first, refl)
  | inr second ↦ (half_q, ap some second, refl)
]

apart : (i j : ℕ) → i < j → j < 2 → draw 23 i ≢ draw 23 j
apart i j lo hi e =
    let first : 0 ≡ i = omega arith in
    let second : j ≡ 1 = omega arith in
    let drawn : draw 23 0 ≡ draw 23 1 = ap (draw 23) first ∙ e ∙ ap (draw 23) second in
    let same : half_p ≡ half_q = ap (λ (o : Option ℕ). elim o [ none ↦ 0 | some p ↦ p ]) drawn in
    absurd (omega (arith, same))

generate_key_total_example :
    (kp : KeyPair) × (after : ℕ) × (generate_key known 1 48 0 ≡ some (ok (kp, after))) × (after ≤ 2)
unfolding prime_bits
generate_key_total_example =
    generate_key_total known 1 48 0 known-IsPrimes refl (omega arith) (λ i e. cc e)
      (λ i j from lo hi. apart i j lo (omega arith))
      (λ i. (i, omega arith, omega arith, suitable i))

abbrev generated : KeyPair
generated = generate_key_total_example.0

generate_key-IsSafeKey_example : IsSafeKey 48 generated
generate_key-IsSafeKey_example =
    generate_key-IsSafeKey known known-IsPrimes 1 48 0 generated generate_key_total_example.1
      generate_key_total_example.2

generate_key_odd_example : generate_key known 9 49 0 ≡ none
unfolding prime_bits
generate_key_odd_example = generate_key_odd known 9 49 0 known-IsPrimes refl (λ i e. cc e)

modulus_bytes : modulus_len generated.n ≡ 6
unfolding modulus_len
modulus_bytes = ap (λ (b : ℕ). (b + 7) / 8) generate_key-IsSafeKey_example.size

derived : derive_public_key toy (public_key generated) [] ≡ ok (record { n = generated.n; e = 1 })
unfolding derive_public_key exponent_of to_int
derived = rw modulus_bytes refl

small : 7 < generated.n
small =
    let safe = generate_key-IsSafeKey_example in
    omega (
      arith,
      subst (λ (b : ℕ). 2 ^ b ≤ 2 * generated.n) safe.size
          (bit_len-bounds generated.n (modulus_pos 48 generated safe)).1,
    )

blind_sign_total_example :
    (s : ℕ) × (blind_sign toy generated (7 ∷ []) [] ≡ ok (fill_bytes (modulus_len generated.n) s))
    × (s < generated.n)
    × (mod_exp s 1 generated.n ≡ 7)
unfolding to_int
blind_sign_total_example =
    blind_sign_total toy toy-IsCrypto 48 generated generate_key-IsSafeKey_example refl (7 ∷ []) []
      (record { n = generated.n; e = 1 }) derived small
