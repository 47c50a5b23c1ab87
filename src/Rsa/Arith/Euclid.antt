-- ===== src/Rsa/Arith/Euclid.antt =====
-- Prime numbers, greatest common divisors with their two factors, and what they give of products and
-- of inverses modulo a number.
use Prim.Native.Nat.{◌∣◌}
use native.Mathlib.Nat.{
  eq-zero_of_zero-dvd, le_of_dvd, pos_of_dvd_of_pos, dvd_trans, mod-eq-zero_of_dvd, div-add-mod,
  dvd_of_mod-eq-zero, dvd_refl, dvd-mod_iff, dvd-mul_right_of_dvd, mul_comm, mul-add-mod_self_left,
  dvd-add_iff_right, dvd-mul_right, mod-lt,
}
use native.Mathlib.Numerals.{unary_clauses}
use eu_trust_sdk.Rsa.Arith.{mul-mod_left}
use eu_trust_sdk.Base.{
  ℕ, zero, suc, ◌+◌, ◌-◌, ◌*◌, ◌/◌, ◌%◌, ◌<◌, ◌≤◌, ◌≡◌, refl, arith, subst, ◌⊎◌, inl, inr, ap, sym,
  ◌∙◌, ◌==◌, Bool-cases,
}

-- A common divisor, and the factors that make it, on either side.
pub record IsBezout (a b : ℕ) : Type 0 where
  pub g : ℕ
  pub left : g ∣ a
  pub right : g ∣ b
  pub x : ℕ
  pub y : ℕ
  pub first : a * x ≡ b * y + g
  pub u : ℕ
  pub v : ℕ
  pub second : b * u ≡ a * v + g

IsBezout-step : (a b : ℕ) → IsBezout b (a % b) → IsBezout a b
IsBezout-step a b h =
    let split : a ≡ b * (a / b) + a % b = sym (div-add-mod a b) in
    let scaled : (t : ℕ) → a * t ≡ (b * (a / b) + a % b) * t = λ t. ap (λ (s : ℕ). s * t) split in
    record {
      g = h.g;
      left = (dvd-mod_iff h.g h.left).0 h.right;
      right = h.left;
      x = h.u;
      y = a / b * h.u + h.v;
      first = omega (arith, scaled h.u, h.second);
      u = h.x + a / b * h.y;
      v = h.y;
      second = omega (arith, scaled h.y, h.first);
    }

one_less : (b q : ℕ) → 0 < b * q → b * q ≡ b * (q - 1) + b
one_less b zero h = absurd (omega arith)
one_less b (suc q) h = simp unary_clauses refl

IsBezout-base : (a b : ℕ) → 0 < a → 0 < b → a % b ≡ 0 → IsBezout a b
IsBezout-base a b pa pb h =
    let split : a ≡ b * (a / b) + a % b = sym (div-add-mod a b) in
    record {
      g = b;
      left = dvd_of_mod-eq-zero b h;
      right = dvd_refl b;
      x = 1;
      y = a / b - 1;
      first = omega (arith, split, one_less b (a / b));
      u = 1;
      v = 0;
      second = omega arith;
    }

IsBezout-below : (fuel a b : ℕ) → b ≤ fuel → 0 < a → 0 < b → IsBezout a b
IsBezout-below zero a b le pa pb = absurd (omega arith)
IsBezout-below (suc fuel) a b le pa pb = elim (Bool-cases (a % b == 0)) [
  | inl none_left ↦ IsBezout-base a b pa pb (ground arith)
  | inr some_left ↦
      IsBezout-step a b (IsBezout-below fuel b (a % b) (omega arith) pb (ground (arith, some_left)))
]

pub bezout : (a b : ℕ) → 0 < a → 0 < b → IsBezout a b
bezout a b pa pb = IsBezout-below b a b (omega arith) pa pb

-- Only itself and 1 divide it.
abbrev pub IsPrime : ℕ → Type 0
IsPrime p = (1 < p) × ((d : ℕ) → d ∣ p → (d ≡ 1) ⊎ (d ≡ p))

-- No number but 1 divides both.
abbrev pub IsCoprime : ℕ → ℕ → Type 0
IsCoprime a b = (d : ℕ) → d ∣ a → d ∣ b → d ≡ 1

-- A number that is no multiple of a prime has no divisor in common with it.
pub prime-IsCoprime : (p a : ℕ) → IsPrime p → ¬ (p ∣ a) → IsCoprime a p
prime-IsCoprime p a prime apart d da dp = elim (prime.1 d dp) [
  | inl e ↦ e
  | inr e ↦ absurd (apart (subst (λ (t : ℕ). t ∣ a) e da))
]

multiple : (a b k x y : ℕ) → a * x ≡ k * y + 1 → a * b * x ≡ k * (y * b) + b
multiple a b k x y e =
    let swapped : a * b * x ≡ a * x * b = omega arith in
    let spread : (k * y + 1) * b ≡ k * (y * b) + b = omega arith in
    swapped ∙ ap (λ (t : ℕ). t * b) e ∙ spread

-- What divides a product and is coprime to one factor divides the other.
pub dvd_of_dvd-mul : (k a b : ℕ) → 0 < k → 0 < a → IsCoprime a k → k ∣ a * b → k ∣ b
dvd_of_dvd-mul k a b pk pa apart h =
    let z = bezout a k pa pk in
    let one : z.g ≡ 1 = apart z.g z.left z.right in
    -- a x b ≡ k y b + b
    let total : a * b * z.x ≡ k * (z.y * b) + b =
      multiple a b k z.x z.y (z.first ∙ ap (λ (t : ℕ). k * z.y + t) one) in
    (dvd-add_iff_right k (dvd-mul_right k (z.y * b))).1
      (subst (λ (t : ℕ). k ∣ t) total (dvd-mul_right_of_dvd k h z.x))

-- A number coprime to the modulus has an inverse below it.
pub inverse_exists :
    (a n : ℕ) → 0 < a → 1 < n → IsCoprime a n → (y : ℕ) × (y < n) × (a * y % n ≡ 1 % n)
inverse_exists a n pa pn apart =
    let z = bezout a n pa (omega arith) in
    let one : z.g ≡ 1 = apart z.g z.left z.right in
    (
      z.x % n,
      mod-lt z.x (omega arith),
      ap (λ (t : ℕ). t % n) (mul_comm a (z.x % n))
          ∙ mul-mod_left z.x a n
          ∙ ap (λ (t : ℕ). t % n) (mul_comm z.x a)
          ∙ ap (λ (t : ℕ). t % n) (z.first ∙ ap (λ (t : ℕ). n * z.y + t) one)
          ∙ mul-add-mod_self_left n z.y 1,
    )

pub two-IsPrime : IsPrime 2
two-IsPrime = (omega arith, λ d h. two_divisor d (le_of_dvd (omega arith) h) h)
  where
    two_divisor : (d : ℕ) → d ≤ 2 → d ∣ 2 → (d ≡ 1) ⊎ (d ≡ 2)
    two_divisor zero le h = absurd (omega (arith, eq-zero_of_zero-dvd h))
    two_divisor (suc zero) le h = inl refl
    two_divisor (suc (suc zero)) le h = inr refl
    two_divisor (suc (suc (suc d))) le h = absurd (omega arith)

-- A number coprime to two factors is coprime to their product.
pub mul-IsCoprime :
    (a b c : ℕ) → 0 < b → 0 < a → IsCoprime a b → IsCoprime a c → IsCoprime a (b * c)
mul-IsCoprime a b c pb pa hb hc d da dbc =
    hc d da (
      dvd_of_dvd-mul d b c (pos_of_dvd_of_pos da pa) pb (λ t tb td. hb t (dvd_trans t td da) tb)
        dbc)

-- A positive number below a prime is coprime to it.
pub below-IsCoprime : (p a : ℕ) → IsPrime p → 0 < a → a < p → IsCoprime a p
below-IsCoprime p a prime pos small =
    prime-IsCoprime p a prime (λ d. absurd (omega (arith, le_of_dvd pos d)))

pub odd-IsCoprime : (a : ℕ) → a % 2 ≡ 1 → IsCoprime a 2
odd-IsCoprime a odd =
    prime-IsCoprime 2 a two-IsPrime (λ d. absurd (omega (arith, odd, mod-eq-zero_of_dvd 2 d)))
