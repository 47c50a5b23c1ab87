-- ===== src/Rsa/Arith/Trial.antt =====
-- Trial division, which finds that a number is prime.
use Prim.Native.Nat.{◌∣◌}
use native.Mathlib.Nat.{mod-eq-zero_of_dvd, mul-div_cancel', mul-le-mul, dvd-mul_left}
use eu_trust_sdk.Base.{
  ℕ, zero, suc, ◌+◌, ◌-◌, ◌*◌, ◌/◌, ◌%◌, ◌<◌, ◌≤◌, ◌≡◌, refl, subst, arith, Bool, true, not, ◌==◌,
  Bool-cases, inl, inr, ltb, ◌⊎◌,
}
use eu_trust_sdk.Base.Table.{all_below, all_below_sound}
use eu_trust_sdk.Rsa.Arith.Euclid.{IsPrime}

-- None of the `steps` numbers from 2 on divides `n`.
unfoldable pub undivided : ℕ → ℕ → Bool
unfolding all_below
undivided steps n = all_below steps (λ d. not (n % (d + 2) == 0))

undivided-not-dvd : (steps n d : ℕ) → undivided steps n ≡ true → 1 < d → d < steps + 2 → ¬ (d ∣ n)
unfolding undivided
undivided-not-dvd steps n d h big small divides =
    let e : d - 2 + 2 ≡ d = omega arith in
    let tested = all_below_sound steps (λ d. not (n % (d + 2) == 0)) (d - 2) h (omega arith) in
    let left : (n % d == 0) ≡ true = rw (mod-eq-zero_of_dvd d divides) refl in cc (tested, left, e)

-- Numbers up to the root are enough.
pub undivided-IsPrime :
    (steps n : ℕ) → undivided steps n ≡ true → 1 < n → n < (steps + 2) * (steps + 2) → IsPrime n
undivided-IsPrime steps n h big small = (big, only)
  where
    cofactor : (d : ℕ) → d ∣ n → n / d ∣ n
    cofactor d divides = subst (λ t. n / d ∣ t) (mul-div_cancel' d divides) (dvd-mul_left (n / d) d)

    -- A divisor or its cofactor was tried.
    tried : (d e : ℕ) → d * e ≡ n → d ∣ n → e ∣ n → (d ≡ 1) ⊎ (d ≡ n)
    tried zero e whole dn en = absurd (omega (arith, whole))
    tried (suc zero) e whole dn en = inl refl
    tried (suc (suc d)) zero whole dn en = absurd (omega (arith, whole))
    tried (suc (suc d)) (suc zero) whole dn en = inr (omega (arith, whole))
    tried (suc (suc d)) (suc (suc e)) whole dn en = elim (Bool-cases (ltb d steps)) [
      | inl low ↦
          absurd (undivided-not-dvd steps n (suc (suc d)) h (omega arith) (ground (arith, low)) dn)
      | inr high ↦ elim (Bool-cases (ltb e steps)) [
        | inl low ↦
            absurd
              (undivided-not-dvd steps n (suc (suc e)) h (omega arith) (ground (arith, low)) en)
        | inr also ↦
            let square : (steps + 2) * (steps + 2) ≤ suc (suc d) * suc (suc e) =
              mul-le-mul (ground (arith, high)) (ground (arith, also)) in
            absurd (omega (arith, square, whole))
      ]
    ]

    only : (d : ℕ) → d ∣ n → (d ≡ 1) ⊎ (d ≡ n)
    only d divides = tried d (n / d) (mul-div_cancel' d divides) divides (cofactor d divides)
