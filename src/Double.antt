-- ===== src/Double.antt =====
-- Go's float64 at the values that the scores use, which are finite and not negative: every such
-- number is a whole multiple of 2 ^ -1074, and is held as that multiple. Each operation rounds the
-- exact result to the nearest double, a tie to the even one. The scores stay far below the largest
-- double, so overflow to infinity is left out.
pub mod Percent
pub mod Bounds
use eu_trust_sdk.Base.{ℕ, zero, suc, ◌+◌, ◌-◌, ◌*◌, ◌/◌, ◌%◌, ◌^◌, ltb, leb, ◌==◌, if◌then◌else◌}

-- The number of binary digits of a number below 2 ^ 2 ^ rounds, by halving the places.
unfoldable pub bit_length : ℕ → ℕ → ℕ
bit_length zero n = if n == 0 then 0 else 1
bit_length (suc rounds) n =
    let half = 2 ^ rounds in
    let high = leb (2 ^ half) n in
    (if high then half else 0) + bit_length rounds (if high then n / 2 ^ half else n)

-- Enough for 2 ^ 4096 units; the largest double has fewer than 2 ^ 2098.
abbrev rounds : ℕ
rounds = 12

-- `m` or `m + 1`, for the remainder `r` of a division by `d`.
unfoldable pub nearest : ℕ → ℕ → ℕ → ℕ
nearest m r d = if ltb (2 * r) d then m else if ltb d (2 * r) then m + 1 else m + m % 2

-- The double nearest to `n / d`: 53 digits, in units that grow with the quotient.
unfoldable pub round_div : ℕ → ℕ → ℕ
unfolding bit_length nearest
round_div n d =
    let unit = 2 ^ (bit_length rounds (n / d) - 53) in
    nearest (n / (unit * d)) (n % (unit * d)) (unit * d) * unit

-- 1.0
unfoldable pub one : ℕ
one = 2 ^ 1074

-- `float64(n)` of an int
unfoldable pub of_int : ℕ → ℕ
unfolding round_div one
of_int n = round_div (n * one) 1

-- `int(x)`
unfoldable pub trunc : ℕ → ℕ
unfolding one
trunc x = x / one

unfoldable pub add : ℕ → ℕ → ℕ
unfolding round_div
add x y = round_div (x + y) 1

unfoldable pub mul : ℕ → ℕ → ℕ
unfolding round_div one
mul x y = round_div (x * y) one

unfoldable pub div : ℕ → ℕ → ℕ
unfolding round_div one
div x y = round_div (x * one) y

-- The literal n / d.
unfoldable pub literal : ℕ → ℕ → ℕ
unfolding round_div one
literal n d = round_div (n * one) d
