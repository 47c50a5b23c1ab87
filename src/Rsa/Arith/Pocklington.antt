-- ===== src/Rsa/Arith/Pocklington.antt =====
-- Pocklington's test: a number is prime if some power of a prime order beyond its root is 1 modulo it.
use Prim.Native.Nat.{◌∣◌}
use native.Mathlib.Nat.{
  mod-eq-zero_of_dvd, dvd_of_mod-eq-zero, dvd_trans, dvd_refl, le_of_dvd, mul-le-mul,
  mul-div_cancel', dvd-mul_left, pow-suc, pow-zero, zero-mod, mod-eq_of_lt, dvd-mul_right_of_dvd,
  mod-mod_of_dvd, eq-zero_of_zero-dvd,
}
use eu_trust_sdk.Base.{
  ℕ, zero, suc, ◌+◌, ◌-◌, ◌*◌, ◌/◌, ◌%◌, ◌^◌, ◌<◌, ◌≤◌, ◌≡◌, ◌≢◌, refl, ap, sym, subst, ◌∙◌, arith,
  Bool, true, false, ◌&&◌, ◌==◌, ltb, Bool-cases, inl, inr, ◌⊎◌,
}
use eu_trust_sdk.Rsa.Arith.{mul-mod_left, one-pow, pow-mod}
use eu_trust_sdk.Rsa.Arith.Euclid.{IsPrime, bezout, prime-IsCoprime}
use eu_trust_sdk.Rsa.Arith.Recover.{pow-mul, prime_power, dvd_of_mod-eq}

-- `b` to the `e` modulo `n` by squaring, where `e` has at most `fuel` bits.
unfoldable pub power_mod : (fuel b e n : ℕ) → ℕ
power_mod zero b e n = 1 % n
power_mod (suc fuel) b e n =
    let rest = power_mod fuel (b * b % n) (e / 2) n in
    elim (e % 2 == 0) [ true ↦ rest | false ↦ rest * b % n ]

square_pow : (b k : ℕ) → (b * b) ^ k ≡ b ^ (2 * k)
square_pow b k =
    let square : b ^ 2 ≡ b * b = rw (pow-suc b 1, pow-suc b 0, pow-zero) (omega arith) in
    ap (λ (t : ℕ). t ^ k) (sym square) ∙ pow-mul b 2 k

power_mod_lem : (fuel b e n : ℕ) → e < 2 ^ fuel → power_mod fuel b e n ≡ b ^ e % n
unfolding power_mod
power_mod_lem zero b e n h =
    let none_left : 0 ≡ e = omega arith in
    subst (λ (t : ℕ). 1 % n ≡ b ^ t % n) none_left (ap (λ (t : ℕ). t % n) (sym (pow-zero b)))
power_mod_lem (suc fuel) b e n h =
    let k = e / 2 in
    let rest : power_mod fuel (b * b % n) k n ≡ b ^ (2 * k) % n =
      power_mod_lem fuel (b * b % n) k n (omega (arith, h, pow-suc 2 fuel))
      ∙ pow-mod (b * b) k n
      ∙ ap (λ (t : ℕ). t % n) (square_pow b k) in
    elim (Bool-cases (e % 2 == 0)) [
      | inl even ↦
          let whole : 2 * k ≡ e = ground (arith, even) in
          rw (even, power_mod) (rest ∙ ap (λ (t : ℕ). b ^ t % n) whole)
      | inr odd ↦
          let whole : suc (2 * k) ≡ e = ground (arith, odd) in
          rw (odd, power_mod)
            (ap (λ (t : ℕ). t * b % n) rest
              ∙ mul-mod_left (b ^ (2 * k)) b n
              ∙ ap (λ (t : ℕ). t % n) (sym (pow-suc b (2 * k)) ∙ ap (λ (t : ℕ). b ^ t) whole))
    ]

-- The least divisor from `d` on, where none below is one.
least_divisor :
    (fuel d m : ℕ)
    → m ≤ d + fuel
    → 1 < d
    → d ≤ m
    → ((e : ℕ) → 1 < e → e < d → ¬ (e ∣ m))
    → (q : ℕ) × (1 < q) × (q ∣ m) × ((e : ℕ) → 1 < e → e < q → ¬ (e ∣ m))
least_divisor zero d m enough big le none_below =
    let last : d ≡ m = omega arith in
    (d, big, subst (λ (t : ℕ). d ∣ t) last (dvd_refl d), none_below)
least_divisor (suc fuel) d m enough big le none_below = elim (Bool-cases (m % d == 0)) [
  | inl divides ↦ (d, big, dvd_of_mod-eq-zero d (ground (arith, divides)), none_below)
  | inr leaves ↦
      let skipped : ¬ (d ∣ m) = λ h. absurd (ground (arith, leaves, mod-eq-zero_of_dvd d h)) in
      let more : d ≢ m = λ e. skipped (subst (λ (t : ℕ). d ∣ t) e (dvd_refl d)) in
      least_divisor fuel (d + 1) m (omega arith) (omega arith) (omega (arith, more)) (λ e lo hi h.
        elim (Bool-cases (ltb e d)) [
          | inl below ↦ none_below e lo (ground (arith, below)) h
          | inr here ↦
              let same : e ≡ d = ground (arith, here) in skipped (subst (λ (t : ℕ). t ∣ m) same h)
        ])
]

-- Every number from 2 on has a prime divisor.
IsPrime-divisor : (m : ℕ) → 1 < m → (q : ℕ) × IsPrime q × (q ∣ m)
IsPrime-divisor m big =
    let (q, one, divides, least) =
      least_divisor m 2 m (omega arith) (omega arith) big (λ e lo hi. absurd (omega arith)) in
    (q, (one, λ d dq. only q m one divides least d dq), divides)
  where
    only :
        (q m : ℕ)
        → 1 < q
        → q ∣ m
        → ((e : ℕ) → 1 < e → e < q → ¬ (e ∣ m))
        → (d : ℕ) → d ∣ q
        → (d ≡ 1) ⊎ (d ≡ q)
    only q m one divides least zero dq = absurd (omega (arith, one, eq-zero_of_zero-dvd dq))
    only q m one divides least (suc zero) dq = inl refl
    only q m one divides least (suc (suc d)) dq = elim (Bool-cases (ltb (suc (suc d)) q)) [
      | inl below ↦ absurd (
          least (suc (suc d)) (omega arith) (ground (arith, below))
            (dvd_trans (suc (suc d)) dq divides))
      | inr above ↦ inr (ground (arith, above, le_of_dvd (omega arith) dq))
    ]

-- A remainder of 1 stays one modulo a divisor.
one_mod : (x n q : ℕ) → 1 < q → q ∣ n → x % n ≡ 1 → x % q ≡ 1
one_mod x n q big divides e =
    sym (mod-mod_of_dvd q x divides) ∙ ap (λ (t : ℕ). t % q) e ∙ mod-eq_of_lt big

-- An order prime to `q - 1` is none.
order_step :
    (r b s : ℕ) → IsPrime r → IsPrime (suc s) → b ^ r % suc s ≡ 1 → ¬ (r ∣ s) → b % suc s ≡ 1
order_step r b s prime_r prime_q power apart =
    let z = bezout s r (omega (arith, prime_q)) (omega (arith, prime_r)) in
    let one : z.g ≡ 1 = prime-IsCoprime r s prime_r apart z.g z.left z.right in
    let exponent : r * z.u ≡ s * z.v + 1 = z.second ∙ ap (λ (t : ℕ). s * z.v + t) one in
    let left : b ^ (r * z.u) % suc s ≡ 1 =
      ap (λ (t : ℕ). t % suc s) (sym (pow-mul b r z.u))
      ∙ sym (pow-mod (b ^ r) z.u (suc s))
      ∙ ap (λ (t : ℕ). t ^ z.u % suc s) power
      ∙ ap (λ (t : ℕ). t % suc s) (one-pow z.u)
      ∙ mod-eq_of_lt (omega (arith, prime_q)) in
    sym (prime_power s z.v b prime_q) ∙ ap (λ (t : ℕ). b ^ t % suc s) (sym exponent) ∙ left

-- A prime divisor is 1 more than a multiple of the order.
order_divides :
    (n r b w s : ℕ)
    → IsPrime r
    → b ^ r % n ≡ 1
    → (b - 1) * w % n ≡ 1
    → IsPrime (suc s)
    → suc s ∣ n
    → r ∣ s
order_divides n r b w s prime_r power unit prime_q divides = elim (Bool-cases (s % r == 0)) [
  | inl whole ↦ dvd_of_mod-eq-zero r (ground (arith, whole))
  | inr leaves ↦
      let apart : ¬ (r ∣ s) = λ h. absurd (ground (arith, leaves, mod-eq-zero_of_dvd r h)) in
      let one =
        order_step r b s prime_r prime_q (one_mod (b ^ r) n (suc s) prime_q.0 divides power)
          apart in
      let multiple : suc s ∣ b - 1 =
        dvd_of_mod-eq (suc s) 1 b (pos_of_mod b (suc s) one) (mod-eq_of_lt prime_q.0 ∙ sym one) in
      absurd (
        omega (
          arith,
          one_mod ((b - 1) * w) n (suc s) prime_q.0 divides unit,
          mod-eq-zero_of_dvd (suc s) (dvd-mul_right_of_dvd (suc s) multiple w),
        ))
]
  where
    pos_of_mod : (b q : ℕ) → b % q ≡ 1 → 1 ≤ b
    pos_of_mod zero q e = absurd (omega (arith, zero-mod q))
    pos_of_mod (suc b) q e = omega arith

-- A number `n` below the square of `r + 1`, for a prime `r`, is prime if some `b` has a power by `r` of
-- 1 modulo `n`, while `b - 1` has an inverse.
pub pocklington :
    (n r b w : ℕ)
    → IsPrime r
    → 1 < n
    → n < (r + 1) * (r + 1)
    → b ^ r % n ≡ 1
    → (b - 1) * w % n ≡ 1
    → IsPrime n
pocklington n r b w prime_r big small power unit =
    (big, λ d dn. tried d (n / d) (mul-div_cancel' d dn) dn)
  where
    from_order : (s m : ℕ) → IsPrime (suc s) → suc s ∣ n → suc s ∣ m → 0 < m → r + 1 ≤ m
    from_order s m prime_q divides dm pos = omega (
      arith,
      le_of_dvd (omega (arith, prime_q.0))
          (order_divides n r b w s prime_r power unit prime_q divides),
      le_of_dvd pos dm,
    )

    large_with : (q m : ℕ) → IsPrime q → q ∣ m → m ∣ n → 0 < m → r + 1 ≤ m
    large_with zero m prime_q dm mn pos = absurd (omega (arith, prime_q.0))
    large_with (suc s) m prime_q dm mn pos = from_order s m prime_q (dvd_trans (suc s) dm mn) dm pos

    large : (m : ℕ) → 1 < m → m ∣ n → r + 1 ≤ m
    large m one mn =
        let (q, prime_q, dm) = IsPrime-divisor m one in large_with q m prime_q dm mn (omega arith)

    tried : (d e : ℕ) → d * e ≡ n → d ∣ n → (d ≡ 1) ⊎ (d ≡ n)
    tried zero e whole dn = absurd (omega (arith, whole))
    tried (suc zero) e whole dn = inl refl
    tried (suc (suc d)) zero whole dn = absurd (omega (arith, whole))
    tried (suc (suc d)) (suc zero) whole dn = inr (omega (arith, whole))
    tried (suc (suc d)) (suc (suc e)) whole dn =
        let cofactor : suc (suc e) ∣ n =
          subst (λ (t : ℕ). suc (suc e) ∣ t) whole (dvd-mul_left (suc (suc e)) (suc (suc d))) in
        let square : (r + 1) * (r + 1) ≤ suc (suc d) * suc (suc e) =
          mul-le-mul (large (suc (suc d)) (omega arith) dn)
            (large (suc (suc e)) (omega arith) cofactor) in
        absurd (omega (arith, square, whole))

-- The test of a certificate: `b` to the `r` by squaring, for a number `r` of at most `fuel` bits.
unfoldable pub certified : (fuel n r b w : ℕ) → Bool
unfolding power_mod
certified fuel n r b w =
    ltb r (2 ^ fuel)
    && ltb 1 n
    && ltb n ((r + 1) * (r + 1))
    && (power_mod fuel b r n == 1)
    && ((b - 1) * w % n == 1)

certified-parts :
    (fuel n r b w : ℕ)
    → certified fuel n r b w ≡ true
    → (r < 2 ^ fuel)
      × (1 < n)
      × (n < (r + 1) * (r + 1))
      × (power_mod fuel b r n ≡ 1)
      × ((b - 1) * w % n ≡ 1)
unfolding certified
certified-parts fuel n r b w h = ground (arith, h)

pub certified-IsPrime : (fuel n r b w : ℕ) → IsPrime r → certified fuel n r b w ≡ true → IsPrime n
certified-IsPrime fuel n r b w prime_r h =
    let (fits, big, small, power, unit) = certified-parts fuel n r b w h in
    pocklington n r b w prime_r big small (sym (power_mod_lem fuel b r n fits) ∙ power) unit
