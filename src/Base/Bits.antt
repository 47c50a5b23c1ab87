-- ===== src/Base/Bits.antt =====
-- Laws of `|`, `&` and `^` on Go's unsigned integers, at variables: one equation for the lowest
-- digit of each, then the fields of a word.
use Prim.Native.Nat.{
  ℕ, zero, suc, min, max, ◌+◌, ◌*◌, ◌/◌, ◌%◌, ◌^◌, ◌≤◌, ◌<◌, differ, digits, bit_and, bit_or,
  bit_xor, bit_and-bitwise, bit_or-bitwise, bit_xor-bitwise,
}
use mathlib.Core.Path.{◌≡◌, refl, ap}
use native.Mathlib.Nat.{pow-suc}
use native.Mathlib.Omega.{arith}

module _ (rest : ℕ → ℕ) (op : ℕ → ℕ → ℕ) where
  -- The count of digits to go does not matter once it is large enough.
  digits_enough : (m n a b : ℕ) → a ≤ m → a ≤ n → digits rest op m a b ≡ digits rest op n a b
  digits_enough zero zero zero b hm hn = refl
  digits_enough zero (suc n) zero b hm hn = refl
  digits_enough (suc m) zero zero b hm hn = refl
  digits_enough (suc m) (suc n) zero b hm hn = refl
  digits_enough zero n (suc a) b hm hn = absurd (omega arith)
  digits_enough (suc m) zero (suc a) b hm hn = absurd (omega arith)
  digits_enough (suc m) (suc n) (suc a) b hm hn =
      rw (digits_enough m n (suc a / 2) (b / 2) (omega arith) (omega arith))

  -- The lowest digit split off, with the count that the halves have by themselves.
  lowest_digit :
      (a b : ℕ)
      → digits rest op (suc a) (suc a) b
        ≡ digits rest op (suc a / 2) (suc a / 2) (b / 2) * 2 + op (suc a % 2) (b % 2)
  lowest_digit a b =
      rw (digits_enough a (suc a / 2) (suc a / 2) (b / 2) (omega arith) (omega arith))

pub bit_or_step : (x y : ℕ) → bit_or x y ≡ bit_or (x / 2) (y / 2) * 2 + max (x % 2) (y % 2)
bit_or_step zero y = simp bit_or-bitwise (omega arith)
bit_or_step (suc x) y = simp bit_or-bitwise (lowest_digit (λ b. b) max x y)

pub bit_and_step : (x y : ℕ) → bit_and x y ≡ bit_and (x / 2) (y / 2) * 2 + min (x % 2) (y % 2)
bit_and_step zero y = simp bit_and-bitwise (omega arith)
bit_and_step (suc x) y = simp bit_and-bitwise (lowest_digit (λ b. 0) min x y)

pub bit_xor_step : (x y : ℕ) → bit_xor x y ≡ bit_xor (x / 2) (y / 2) * 2 + differ (x % 2) (y % 2)
bit_xor_step zero y = simp bit_xor-bitwise (omega arith)
bit_xor_step (suc x) y = simp bit_xor-bitwise (lowest_digit (λ b. b) differ x y)

shift_suc : (q k : ℕ) → q * 2 ^ suc k ≡ 2 * (q * 2 ^ k)
shift_suc q k = omega (arith, ap (λ (t : ℕ). q * t) (pow-suc 2 k))

bit_or-zero : (n a : ℕ) → a ≤ n → bit_or a 0 ≡ a
bit_or-zero n zero h = refl
bit_or-zero zero (suc a) h = absurd (omega arith)
bit_or-zero (suc n) (suc a) h =
    omega (arith, bit_or_step (suc a) 0, bit_or-zero n (suc a / 2) (omega arith))

-- `q << k | r` is a sum where `r` fits in `k` bits.
pub bit_or-shift : (k q r : ℕ) → r < 2 ^ k → bit_or (q * 2 ^ k) r ≡ q * 2 ^ k + r
bit_or-shift zero q r h = ground (arith, bit_or-zero q q)
bit_or-shift (suc k) q r h = ground (
  arith,
  shift_suc q k,
  pow-suc 2 k,
  bit_or_step (q * 2 ^ suc k) r,
  bit_or-shift k q (r / 2) (omega (arith, pow-suc 2 k)),
)

differ-lt : (x y : ℕ) → x < 2 → y < 2 → differ x y < 2
differ-lt zero y hx hy = hy
differ-lt (suc zero) zero hx hy = hx
differ-lt (suc zero) (suc y) hx hy = omega arith
differ-lt (suc (suc x)) y hx hy = absurd (omega arith)

differ-differ : (x y : ℕ) → x < 2 → y < 2 → differ (differ x y) y ≡ x
differ-differ zero zero hx hy = refl
differ-differ zero (suc zero) hx hy = refl
differ-differ (suc zero) zero hx hy = refl
differ-differ (suc zero) (suc zero) hx hy = refl
differ-differ (suc (suc x)) y hx hy = absurd (omega arith)
differ-differ x (suc (suc y)) hx hy = absurd (omega arith)

-- `x ^ y` halved, and its lowest digit.
bit_xor_parts :
    (a b : ℕ)
    → (bit_xor a b / 2 ≡ bit_xor (a / 2) (b / 2)) × (bit_xor a b % 2 ≡ differ (a % 2) (b % 2))
bit_xor_parts a b =
    omega (arith, bit_xor_step a b, differ-lt (a % 2) (b % 2) (omega arith) (omega arith))

bit_xor_cancel_fuel : (n a b : ℕ) → a ≤ n → b ≤ n → bit_xor (bit_xor a b) b ≡ a
bit_xor_cancel_fuel zero zero zero ha hb = refl
bit_xor_cancel_fuel zero (suc a) b ha hb = absurd (omega arith)
bit_xor_cancel_fuel zero a (suc b) ha hb = absurd (omega arith)
bit_xor_cancel_fuel (suc n) a b ha hb = omega (
  arith,
  bit_xor_step (bit_xor a b) b,
  ap (λ (t : ℕ). bit_xor t (b / 2)) (bit_xor_parts a b).0,
  ap (λ (t : ℕ). differ t (b % 2)) (bit_xor_parts a b).1,
  differ-differ (a % 2) (b % 2) (omega arith) (omega arith),
  bit_xor_cancel_fuel n (a / 2) (b / 2) (omega arith) (omega arith),
)

-- A mask applied twice is gone.
pub bit_xor_cancel : (a b : ℕ) → bit_xor (bit_xor a b) b ≡ a
bit_xor_cancel a b = bit_xor_cancel_fuel (a + b) a b (omega arith) (omega arith)

-- `x ^ y` needs no more bits than `x` and `y`.
pub bit_xor-lt : (k a b : ℕ) → a < 2 ^ k → b < 2 ^ k → bit_xor a b < 2 ^ k
bit_xor-lt zero a b ha hb = ground (arith, ha, hb)
bit_xor-lt (suc k) a b ha hb = omega (
  arith,
  pow-suc 2 k,
  bit_xor_step a b,
  differ-lt (a % 2) (b % 2) (omega arith) (omega arith),
  bit_xor-lt k (a / 2) (b / 2) (omega (arith, pow-suc 2 k)) (omega (arith, pow-suc 2 k)),
)

-- Nothing is left of 0.
pub zero-bit_and : (b : ℕ) → bit_and 0 b ≡ 0
zero-bit_and b = simp bit_and-bitwise
