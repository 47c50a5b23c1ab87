-- ===== src/Base/Bytes.antt =====
-- Byte strings as big-endian integers: `big.Int.SetBytes` and `FillBytes`, and `Uint32`, `Uint64`,
-- `PutUint32` and `PutUint64` of `binary.BigEndian` at their lengths.
use native.Mathlib.Nat.{
  pow-suc, one-le-pow, div-lt_iff_lt-mul, mod-lt, mod-eq_of_lt, div-add-mod', div-eq_of_lt,
  mul-add-div_right, mul-add-mod_self_right,
}
use Prim.Native.Nat.{ℕ, zero, suc, ◌+◌, ◌*◌, ◌/◌, ◌%◌, ◌^◌, ◌<◌}
use mathlib.Core.Path.{◌≡◌, refl, ap}
use mathlib.Core.List.{[], ◌∷◌}
use native.Mathlib.Omega.{arith}
use eu_trust_sdk.Base.Tests.{Text}
use eu_trust_sdk.Base.Lists.{length, All}

-- Every element is a byte.
abbrev pub IsBytes : Text → Type 0
IsBytes = All (λ b. b < 256)

unfoldable pub to_int : Text → ℕ
to_int [] = 0
to_int (b ∷ bs) = b * 256 ^ length bs + to_int bs

-- The low `n` bytes of `x`, highest first.
unfoldable pub fill_bytes : ℕ → ℕ → Text
fill_bytes zero x = []
fill_bytes (suc n) x = (x / 256 ^ n % 256) ∷ fill_bytes n (x % 256 ^ n)

pub length-fill_bytes : (n x : ℕ) → length (fill_bytes n x) ≡ n
unfolding fill_bytes
length-fill_bytes zero x = refl
length-fill_bytes (suc n) x = ap suc (length-fill_bytes n (x % 256 ^ n))

pub fill_bytes-IsBytes : (n x : ℕ) → IsBytes (fill_bytes n x)
unfolding fill_bytes
fill_bytes-IsBytes zero x = tt
fill_bytes-IsBytes (suc n) x = (omega arith, fill_bytes-IsBytes n (x % 256 ^ n))

pub to_int-lt : (bs : Text) → IsBytes bs → to_int bs < 256 ^ length bs
unfolding to_int
to_int-lt [] h = omega arith
to_int-lt (b ∷ bs) h = grind (arith, pow-suc 256 (length bs), to_int-lt bs h.1, h.0)

pub to_int-fill_bytes : (n x : ℕ) → x < 256 ^ n → to_int (fill_bytes n x) ≡ x
unfolding to_int fill_bytes
to_int-fill_bytes zero x h = omega arith
to_int-fill_bytes (suc n) x h =
    let p = 256 ^ n in
    let pos : 0 < p = one-le-pow n 256 (omega arith) in
    let top : x / p < 256 = (div-lt_iff_lt-mul pos).1 (omega (arith, pow-suc 256 n)) in
    rw (length-fill_bytes n (x % p), to_int-fill_bytes n (x % p) (mod-lt x pos))
      (omega (arith, div-add-mod' x p, ap (λ (t : ℕ). t * p) (mod-eq_of_lt top)))

split_top : (b p r : ℕ) → r < p → b < 256 → ((b * p + r) / p % 256 ≡ b) × ((b * p + r) % p ≡ r)
split_top b p r h hb =
    let pos : 0 < p = omega arith in
    (
      rw (mul-add-div_right pos b r, div-eq_of_lt h) (omega arith),
      rw (mul-add-mod_self_right b p r) (mod-eq_of_lt h),
    )

pub fill_bytes-to_int : (bs : Text) → IsBytes bs → fill_bytes (length bs) (to_int bs) ≡ bs
unfolding to_int fill_bytes
fill_bytes-to_int [] h = refl
fill_bytes-to_int (b ∷ bs) h =
    let (high, low) = split_top b (256 ^ length bs) (to_int bs) (to_int-lt bs h.1) h.0 in
    rw (high, low, fill_bytes-to_int bs h.1)
