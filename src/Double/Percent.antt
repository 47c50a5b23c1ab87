-- ===== src/Double/Percent.antt =====
-- `int(float64(f) / float64(n) * 100)` is the exact percentage, rounded down, wherever the store
-- computes it.
use eu_trust_sdk.Base.{
  ℕ, zero, suc, ◌+◌, ◌*◌, ◌/◌, ◌≤◌, ◌<◌, ◌≡◌, refl, Bool, true, arith, ◌==◌, ==_iff,
}
use eu_trust_sdk.Base.Table.{all_below, all_below_sound}
use eu_trust_sdk.Double.{of_int, trunc, mul, div}

unfoldable pub percent : ℕ → ℕ → ℕ
unfolding of_int trunc mul div
percent f n = trunc (mul (div (of_int f) (of_int n)) (of_int 100))

abbrev is_exact : ℕ → ℕ → Bool
is_exact n f = percent f n == 100 * f / n

table : all_below 20 (λ n. all_below (suc n + 1) (is_exact (suc n))) ≡ true
unfolding percent all_below
table = refl

pub percent-exact : (f n : ℕ) → 0 < n → n ≤ 20 → f ≤ n → percent f n ≡ 100 * f / n
percent-exact f (suc n) pos small h = (==_iff _ _).0 (
    all_below_sound (suc n + 1) (is_exact (suc n)) f
      (all_below_sound 20 (λ n. all_below (suc n + 1) (is_exact (suc n))) n table (omega arith))
      (omega arith))
percent-exact f zero pos small h = absurd (omega arith)
