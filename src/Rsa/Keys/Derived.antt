-- ===== src/Rsa/Keys/Derived.antt =====
-- The exponents that `DerivePublicKey` gives.
use Prim.Native.Nat.{bit_and, bit_or}
use native.Mathlib.Nat.{pow-suc}
use eu_trust_sdk.Base.{
  Option, codes, ◌++◌, Option-cases, Bool-cases, inl, inr, ℕ, zero, suc, ◌+◌, ◌-◌, ◌*◌, ◌/◌, ◌%◌,
  ◌^◌, ◌≤◌, ◌<◌, ◌≡◌, refl, sym, ap, subst, arith, Bool, true, ◌&&◌, some, [], ◌∷◌, length, take,
  ltb, ltb→lt, ◌==◌, Text,
}
use eu_trust_sdk.Base.Bytes.{fill_bytes, IsBytes, to_int, to_int-lt}
use eu_trust_sdk.Base.Table.{all_below, all_below_sound}
use eu_trust_sdk.Crypto.{Crypto, IsCrypto}
use eu_trust_sdk.Rsa.Error.{ok, ok-injective}
use eu_trust_sdk.Rsa.Keys.{
  PublicKey, DerivedPublicKey, modulus_len, update_at, exponent_of, derive_public_key,
}

-- The two masks, on every byte.
abbrev is_masked : ℕ → Bool
is_masked b =
    ltb (bit_and b 0x3f) 64
    && (bit_or b 0x01 % 2 == 1)
    && ltb (bit_or b 0x01) 256
    && ltb (bit_or (bit_and b 0x3f) 0x01) 64

mask_table : all_below 256 is_masked ≡ true
unfolding all_below
mask_table = refl

masks_lem :
    (b : ℕ)
    → b < 256
    → (bit_and b 0x3f < 64)
      × (bit_or b 0x01 % 2 ≡ 1)
      × (bit_or b 0x01 < 256)
      × (bit_or (bit_and b 0x3f) 0x01 < 64)
masks_lem b small =
    grind (arith, all_below_sound 256 is_masked b mask_table small, is_masked, ltb→lt)

abbrev set_last : ℕ → Text → Text
set_last n bs = take (suc n) (update_at n (λ b. bit_or b 0x01) bs)

set_last-IsBytes : (n : ℕ) (bs : Text) → IsBytes bs → IsBytes (set_last n bs)
set_last-IsBytes zero [] h = tt
set_last-IsBytes zero (b ∷ bs) h = (omega (arith, masks_lem b h.0), tt)
set_last-IsBytes (suc n) [] h = tt
set_last-IsBytes (suc n) (b ∷ bs) h = (h.0, set_last-IsBytes n bs h.1)

length-set_last : (n : ℕ) (bs : Text) → suc n ≤ length bs → length (set_last n bs) ≡ suc n
length-set_last n [] h = absurd (omega arith)
length-set_last zero (b ∷ bs) h = refl
length-set_last (suc n) (b ∷ bs) h = ap suc (length-set_last n bs (omega arith))

set_last_odd : (n : ℕ) (bs : Text) → IsBytes bs → suc n ≤ length bs → to_int (set_last n bs) % 2 ≡ 1
unfolding to_int
set_last_odd n [] h le = absurd (omega arith)
set_last_odd zero (b ∷ bs) h le = omega (arith, masks_lem b h.0)
set_last_odd (suc n) (b ∷ bs) h le =
    rw (length-set_last n bs (omega arith), pow-suc 256 n)
      (omega (arith, set_last_odd n bs h.1 (omega arith)))

exponent_of-cons :
    (n b : ℕ) (bs : Text)
    → suc n ≤ length bs
    → exponent_of (suc (suc n)) (b ∷ bs) ≡ bit_and b 0x3f * 256 ^ suc n + to_int (set_last n bs)
unfolding exponent_of to_int
exponent_of-cons n b bs le =
    let last : suc (suc n) - 1 ≡ suc n = omega arith in
    rw (last, exponent_of, length-set_last n bs le)

exponent_bounds :
    (a r p : ℕ) {q : ℕ}
    → q ≡ p * 256
    → a < 64
    → r % 2 ≡ 1
    → r < q
    → ((a * q + r) % 2 ≡ 1) × (a * q + r < 64 * q)
exponent_bounds a r p e small odd below = rw e (omega (arith, e), grind (arith, e))

exponent_lem :
    (n : ℕ) (expanded : Text)
    → IsBytes expanded
    → suc n ≤ length expanded
    → (exponent_of (suc n) expanded % 2 ≡ 1) × (exponent_of (suc n) expanded < 64 * 256 ^ n)
unfolding exponent_of to_int
exponent_lem n [] h le = absurd (omega arith)
exponent_lem zero (b ∷ bs) h le =
    let (small, _, _, both) = masks_lem b h.0 in
    (omega (arith, masks_lem (bit_and b 0x3f) (omega arith)), omega arith)
exponent_lem (suc n) (b ∷ bs) h le =
    let long : suc n ≤ length bs = omega arith in
    let below : to_int (set_last n bs) < 256 ^ suc n =
      subst (λ (k : ℕ). to_int (set_last n bs) < 256 ^ k) (length-set_last n bs long)
        (to_int-lt (set_last n bs) (set_last-IsBytes n bs h.1)) in
    let (small, _, _, _) = masks_lem b h.0 in
    rw (exponent_of-cons n b bs long) (
      exponent_bounds (bit_and b 0x3f) (to_int (set_last n bs)) (256 ^ n) (pow-suc 256 n) small
        (set_last_odd n bs h.1 long) below)

scaled : (n x : ℕ) → x < 64 * 256 ^ n → 4 * x < 256 ^ suc n
scaled n x h = omega (arith, pow-suc 256 n)

module _ (c : Crypto) (laws : IsCrypto c) (pk : PublicKey) (info : Text) where
  abbrev half : ℕ
  half = modulus_len pk.n / 2

  abbrev stretched : Option Text
  stretched =
      c.hkdf_sha384 (codes "key" ++ (info ++ 0x00 ∷ [])) (fill_bytes (modulus_len pk.n) pk.n)
        (codes "PBRSA") (half + 16)

  -- A success has read the bytes, and found half a byte at least.
  derive_public_key-eq-ok :
      (key : DerivedPublicKey)
      → derive_public_key c pk info ≡ ok key
      → (expanded : Text) × (n : ℕ) × (stretched ≡ some expanded)
        × (half ≡ suc n)
        × (key ≡ record { n = pk.n; e = exponent_of half expanded })
  unfolding derive_public_key
  derive_public_key-eq-ok key = elim (Option-cases stretched) [
    | inl unread ↦ rw (unread, derive_public_key) (λ e. absurd cc)
    | inr (expanded, read) ↦ elim (Bool-cases (half == 0)) [
      | inl empty ↦ rw (read, empty, derive_public_key) (λ e. absurd cc)
      | inr some_bytes ↦
          rw (read, some_bytes, derive_public_key)
            (λ e. (expanded, half - 1, refl, ground (arith, some_bytes), sym (ok-injective e)))
    ]
  ]

  -- The exponent that `DerivePublicKey` gives is odd, and lies below a quarter of what half of the
  -- modulus' bytes can hold; the modulus stays.
  pub derive_public_key_odd :
      (key : DerivedPublicKey)
      → derive_public_key c pk info ≡ ok key
      → (key.n ≡ pk.n) × (key.e % 2 ≡ 1) × (4 * key.e < 256 ^ (modulus_len pk.n / 2))
  derive_public_key_odd key e =
      let (expanded, n, read, positive, same) = derive_public_key-eq-ok key e in
      let long = laws.hkdf_length _ _ _ (half + 16) expanded read in
      let bytes = laws.hkdf_bytes _ _ _ (half + 16) expanded read in
      let (odd, below) = exponent_lem n expanded bytes (omega (arith, long, positive)) in
      rw (same, positive) (refl, odd, scaled n _ below)
