-- ===== src/Rsa/Arith/Fermat.antt =====
-- Powers modulo a prime: a number's power by the prime is the number again.
use Prim.Native.Nat.{◌∣◌}
use native.Mathlib.Nat.{
  pow-suc, pow-zero, dvd-mul_right, le_of_dvd, mod-eq-zero_of_dvd, add-mod, mod-mod,
  dvd-mul_right_of_dvd, mul-zero, add-zero,
}
use native.Mathlib.Numerals.{suc-eq-add-one}
use eu_trust_sdk.Base.{ℕ, zero, suc, ◌+◌, ◌*◌, ◌%◌, ◌^◌, ◌<◌, ◌≤◌, ◌≡◌, refl, arith, ap, sym, ◌∙◌}
use eu_trust_sdk.Rsa.Arith.Euclid.{IsPrime, prime-IsCoprime, dvd_of_dvd-mul}

pub add_multiple : (a b n : ℕ) → b % n ≡ 0 → (a + b) % n ≡ a % n
add_multiple a b n e = rw (add-mod a b n, e, add-zero, mod-mod) refl

choose : ℕ → ℕ → ℕ
choose n zero = 1
choose zero (suc k) = 0
choose (suc n) (suc k) = choose n k + choose n (suc k)

choose_above : (n k : ℕ) → n < k → choose n k ≡ 0
unfolding choose
choose_above n zero h = absurd (omega arith)
choose_above zero (suc k) h = refl
choose_above (suc n) (suc k) h =
    omega (arith, choose_above n k (omega arith), choose_above n (suc k) (omega arith))

choose_self : (n : ℕ) → choose n n ≡ 1
unfolding choose
choose_self zero = refl
choose_self (suc n) = omega (arith, choose_self n, choose_above n (suc n) (omega arith))

choose_zero : (n : ℕ) → choose n 0 ≡ 1
unfolding choose
choose_zero zero = refl
choose_zero (suc n) = refl

absorb_step :
    (k n x y b : ℕ)
    → k * (x + y) ≡ n * x
    → (k + 1) * b ≡ n * y
    → (k + 1) * (x + y + b) ≡ (n + 1) * (x + y)
absorb_step k n x y b e f =
    let spread : (k + 1) * (x + y + b) ≡ k * (x + y) + (x + y) + (k + 1) * b = omega arith in
    let gathered : n * x + (x + y) + n * y ≡ (n + 1) * (x + y) = omega arith in
    spread ∙ omega (arith, e, f) ∙ gathered

-- A coefficient times its index is the row times the coefficient above.
choose_absorb : (n k : ℕ) → suc k * choose (suc n) (suc k) ≡ suc n * choose n k
unfolding choose
choose_absorb zero zero = refl
choose_absorb zero (suc k) = omega arith
choose_absorb (suc n) zero = omega (arith, choose_absorb n zero, choose_zero n)
choose_absorb (suc n) (suc k) =
    rw (suc-eq-add-one (suc k), suc-eq-add-one (suc n))
      (absorb_step (suc k) (suc n) (choose n k) (choose n (suc k)) (choose (suc n) (suc (suc k)))
        (choose_absorb n k) (rw suc-eq-add-one at (choose_absorb n (suc k))))

-- The first `m` terms of the expansion of `(1 + a) ^ n`
expand : (n m a : ℕ) → ℕ
unfolding choose
expand n zero a = 0
expand n (suc m) a = expand n m a + choose n m * a ^ m

expand_one : (n a : ℕ) → expand n 1 a ≡ 1
unfolding expand
expand_one n a = rw (choose_zero n, pow-zero) refl

regroup :
    (s t u v w p q a : ℕ)
    → s ≡ t + a * u
    → q ≡ p * a
    → s + (v + w) * q ≡ t + w * q + a * (u + v * p)
regroup s t u v w p q a e f =
    let spread : s + (v + w) * q ≡ s + w * q + v * q = omega arith in
    let gathered : t + w * q + a * (u + v * p) ≡ t + a * u + w * q + v * (p * a) = omega arith in
    omega (arith, spread, gathered, e, ap (λ (x : ℕ). v * x) f)

expand_step : (n m a : ℕ) → expand (suc n) (suc m) a ≡ expand n (suc m) a + a * expand n m a
unfolding expand choose
expand_step n zero a = omega (arith, choose_zero n, choose_zero (suc n), pow-zero a)
expand_step n (suc m) a =
    regroup (expand (suc n) (suc m) a) (expand n (suc m) a) (expand n m a) (choose n m)
      (choose n (suc m)) (a ^ m) (a ^ suc m) a (expand_step n m a) (pow-suc a m)

-- All terms make the power.
expand_all : (n a : ℕ) → expand n (suc n) a ≡ (a + 1) ^ n
unfolding expand choose
expand_all zero a = rw (pow-zero, pow-zero) refl
expand_all (suc n) a =
    let last : expand n (suc (suc n)) a ≡ expand n (suc n) a =
      omega (arith, ap (λ (x : ℕ). x * a ^ suc n) (choose_above n (suc n) (omega arith))) in
    rw (expand_step n (suc n) a, last, expand_all n a, pow-suc (a + 1) n) (omega arith)

-- The inner coefficients of a prime's row are multiples of it.
prime-dvd-choose : (r k : ℕ) → IsPrime (suc r) → k < r → suc r ∣ choose (suc r) (suc k)
prime-dvd-choose r k prime small =
    let apart : ¬ (suc r ∣ suc k) = λ d. absurd (omega (arith, le_of_dvd (omega arith) d)) in
    dvd_of_dvd-mul (suc r) (suc k) (choose (suc r) (suc k)) (omega arith) (omega arith)
      (prime-IsCoprime (suc r) (suc k) prime apart)
      (rw (choose_absorb r k) (dvd-mul_right (suc r) (choose r k)))

expand_prime : (r m a : ℕ) → IsPrime (suc r) → m ≤ r → expand (suc r) (suc m) a % suc r ≡ 1 % suc r
unfolding expand
expand_prime r zero a prime h = rw (choose_zero (suc r), pow-zero) refl
expand_prime r (suc m) a prime h =
    let multiple : choose (suc r) (suc m) * a ^ suc m % suc r ≡ 0 =
      mod-eq-zero_of_dvd (suc r)
        (dvd-mul_right_of_dvd (suc r) (prime-dvd-choose r m prime (omega arith)) (a ^ suc m)) in
    add_multiple (expand (suc r) (suc m) a) _ (suc r) multiple
    ∙ expand_prime r m a prime (omega arith)

fermat_suc : (r a : ℕ) → IsPrime (suc r) → a ^ suc r % suc r ≡ a % suc r
unfolding expand
fermat_suc r zero prime = rw (pow-suc 0 r) (ap (λ (t : ℕ). t % suc r) (mul-zero (0 ^ r)))
fermat_suc r (suc a) prime =
    let p = suc r in
    let all : (a + 1) ^ p ≡ expand p p a + a ^ p =
      sym (expand_all p a) ∙ omega (arith, ap (λ (t : ℕ). t * a ^ p) (choose_self p)) in
    let one : expand p p a % p ≡ 1 % p = expand_prime r r a prime (omega arith) in
    rw (suc-eq-add-one a, all, add-mod, one, fermat_suc r a prime, ← add-mod)
      (ap (λ (t : ℕ). t % p) (omega arith))

-- A number's power by a prime is the number again.
pub fermat : (p a : ℕ) → IsPrime p → a ^ p % p ≡ a % p
fermat zero a prime = absurd (omega arith)
fermat (suc r) a prime = fermat_suc r a prime
