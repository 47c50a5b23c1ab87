-- ===== src/Rsa/Arith/Recover.antt =====
-- Two exponents whose product is 1 modulo `(p - 1) * (q - 1)` undo each other modulo `p * q`.
use Prim.Native.Nat.{◌∣◌}
use native.Mathlib.Nat.{
  mul_assoc, pow-le-pow_right, pow-suc, pow-zero, mul_comm, mul-suc, dvd-sub, dvd-mul_right,
  div-add-mod, mul-zero, mod-eq-zero_of_dvd, mod-eq_of_lt, mul-div_cancel', mul-dvd-mul_left,
}
use native.Mathlib.Numerals.{suc-eq-add-one, unary_clauses}
use eu_trust_sdk.Base.{
  ℕ, zero, suc, ◌+◌, ◌-◌, ◌*◌, ◌/◌, ◌%◌, ◌^◌, ◌<◌, ◌≤◌, ◌≡◌, ◌≢◌, refl, arith, subst, inl, inr, ap,
  sym, ◌∙◌,
}
use eu_trust_sdk.Rsa.Arith.{mul-mod, pow-mod, pow-add}
use eu_trust_sdk.Rsa.Arith.Euclid.{IsPrime, prime-IsCoprime, dvd_of_dvd-mul}
use eu_trust_sdk.Rsa.Arith.Fermat.{fermat, add_multiple}

pub pow-mul : (a m n : ℕ) → (a ^ m) ^ n ≡ a ^ (m * n)
pow-mul a m zero = rw (pow-zero, mul-zero, pow-zero) refl
pow-mul a m (suc n) = rw (pow-suc (a ^ m) n, pow-mul a m n, mul-suc, pow-add) refl

-- Equal remainders, multiplied.
times_mod : (a b c n : ℕ) → b % n ≡ c % n → a * b % n ≡ a * c % n
times_mod a b c n e = sym (mul-mod a b n) ∙ ap (λ (t : ℕ). (a % n) * t % n) e ∙ mul-mod a c n

pow_one : (x : ℕ) → x ^ 1 ≡ x
pow_one x = rw (pow-suc x 0, pow-zero x) (omega arith)

-- Any number of rounds of `p - 1` more factors give the number again.
pub prime_power : (r k x : ℕ) → IsPrime (suc r) → x ^ (r * k + 1) % suc r ≡ x % suc r
prime_power r zero x prime = ap (λ (t : ℕ). t % suc r) (rw (mul-zero r) (pow_one x))
prime_power r (suc k) x prime =
    let split : r * suc k + 1 ≡ r * k + suc r = rw mul-suc (omega arith) in
    rw (split, pow-add x (r * k) (suc r))
      (times_mod (x ^ (r * k)) (x ^ suc r) x (suc r) (fermat (suc r) x prime)
        ∙ ap (λ (t : ℕ). t % suc r)
            (sym (pow-suc x (r * k)) ∙ ap (λ (t : ℕ). x ^ t) (suc-eq-add-one (r * k)))
        ∙ prime_power r k x prime)

-- Numbers with the same remainder differ by a multiple.
pub dvd_of_mod-eq : (n x y : ℕ) → x ≤ y → x % n ≡ y % n → n ∣ y - x
dvd_of_mod-eq n x y le e =
    let gap : n * (y / n) - n * (x / n) ≡ y - x = omega (arith, div-add-mod x n, div-add-mod y n) in
    subst (λ (t : ℕ). n ∣ t) gap (dvd-sub n (dvd-mul_right n (y / n)) (dvd-mul_right n (x / n)))

-- A multiple of two primes is one of their product.
product_dvd : (p q m : ℕ) → IsPrime p → IsPrime q → p ≢ q → p ∣ m → q ∣ m → p * q ∣ m
product_dvd p q m prime_p prime_q differ dp dq =
    let apart : ¬ (q ∣ p) = λ d. elim (prime_p.1 q d) [
      | inl e ↦ absurd (omega (arith, e, prime_q.0))
      | inr e ↦ differ (sym e)
    ] in
    let whole : p * (m / p) ≡ m = mul-div_cancel' p dp in
    let rest : q ∣ m / p =
      dvd_of_dvd-mul q p (m / p) (omega (arith, prime_q.0)) (omega (arith, prime_p.0))
        (prime-IsCoprime q p prime_q apart) (subst (λ (t : ℕ). q ∣ t) (sym whole) dq) in
    subst (λ (t : ℕ). p * q ∣ t) whole (mul-dvd-mul_left q p rest)

remainders_le :
    (p q x y : ℕ)
    → IsPrime p
    → IsPrime q
    → p ≢ q
    → x ≤ y
    → x % p ≡ y % p
    → x % q ≡ y % q
    → y % (p * q) ≡ x % (p * q)
remainders_le p q x y prime_p prime_q differ le e f =
    let gap : p * q ∣ y - x =
      product_dvd p q (y - x) prime_p prime_q differ (dvd_of_mod-eq p x y le e)
        (dvd_of_mod-eq q x y le f) in
    let sum : y ≡ x + (y - x) = omega arith in
    ap (λ (t : ℕ). t % (p * q)) sum
    ∙ add_multiple x (y - x) (p * q) (mod-eq-zero_of_dvd (p * q) gap)

-- The power, in the form that `prime_power` reads.
power_split : (r s k x : ℕ) → IsPrime (suc r) → x ^ (r * s * k + 1) % suc r ≡ x % suc r
power_split r s k x prime = rw (mul_assoc r s k) (prime_power r (s * k) x prime)

-- The number is no larger than its power.
le-pow : (x k : ℕ) → x ≤ x ^ (k + 1)
le-pow zero k = omega arith
le-pow (suc x) k =
    rw pow_one at (pow-le-pow_right {n = suc x} (omega arith) {i = 1} {j = k + 1} (omega arith))

recovers_suc :
    (r s k x : ℕ)
    → IsPrime (suc r)
    → IsPrime (suc s)
    → suc r ≢ suc s
    → x ^ (r * s * k + 1) % (suc r * suc s) ≡ x % (suc r * suc s)
recovers_suc r s k x prime_p prime_q differ =
    remainders_le (suc r) (suc s) x (x ^ (r * s * k + 1)) prime_p prime_q differ
      (le-pow x (r * s * k)) (sym (power_split r s k x prime_p))
      (sym (rw (mul_comm r s) (power_split s r k x prime_q)))

-- `x` to the `e * d` is `x` again, modulo the product of two primes.
pub rsa_recovers :
    (p q e d x : ℕ)
    → IsPrime p
    → IsPrime q
    → p ≢ q
    → e * d % ((p - 1) * (q - 1)) ≡ 1
    → x < p * q
    → (x ^ d % (p * q)) ^ e % (p * q) ≡ x
rsa_recovers zero q e d x prime_p prime_q differ inverse small = absurd (omega (arith, prime_p.0))
rsa_recovers (suc r) zero e d x prime_p prime_q differ inverse small =
    absurd (omega (arith, prime_q.0))
rsa_recovers (suc r) (suc s) e d x prime_p prime_q differ inverse small =
    let n = suc r * suc s in
    let k = e * d / (r * s) in
    let one : e * d % (r * s) ≡ 1 = simp unary_clauses at inverse in
    let exponent : d * e ≡ r * s * k + 1 =
      mul_comm d e ∙ omega (arith, div-add-mod (e * d) (r * s), one) in
    pow-mod (x ^ d) e n
    ∙ ap (λ (t : ℕ). t % n) (pow-mul x d e ∙ ap (λ (t : ℕ). x ^ t) exponent)
    ∙ recovers_suc r s k x prime_p prime_q differ
    ∙ mod-eq_of_lt small
