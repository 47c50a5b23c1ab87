-- ===== src/Rsa/Pss/Masks.antt =====
-- Masking and unmasking: `xorBytes`, the cleared top bits, and the length of a mask.
use Prim.Native.Nat.{bit_and, bit_xor}
use native.Mathlib.Nat.{le_refl}
use eu_trust_sdk.Base.{
  ℕ, zero, suc, ◌+◌, ◌-◌, ◌*◌, ◌/◌, ◌%◌, ◌^◌, ◌≤◌, ◌<◌, ◌≡◌, refl, ap, true, false, [], ◌∷◌, ◌++◌,
  arith, length, length-append, length-take, take, All-append, All-take, ◌==◌, ==_iff, Bool-cases,
  inl, inr, Text, ltb, ltb→lt,
}
use eu_trust_sdk.Base.Bits.{zero-bit_and, bit_xor_cancel, bit_xor-lt}
use eu_trust_sdk.Base.Bytes.{IsBytes, fill_bytes, to_int, to_int-lt}
use eu_trust_sdk.Base.Table.{all_below, all_below_sound}
use eu_trust_sdk.Crypto.{Crypto, IsCrypto}
use eu_trust_sdk.Rsa.Pss.{hash_len, xor_bytes, clear_top, top_is_set, mgf1_from, mgf1_sha384}

abbrev low_mask : ℕ → ℕ
low_mask t = 0xff / 2 ^ t

low_table :
    all_below 8 (λ t. all_below 256 (λ b. ltb (bit_and b (low_mask t)) (2 ^ (8 - t)))) ≡ true
unfolding all_below
low_table = refl

-- The byte that is left fits the bits that are left.
pub low-lt : (t b : ℕ) → t < 8 → b < 256 → bit_and b (0xff / 2 ^ t) < 2 ^ (8 - t)
low-lt t b ht hb = ltb→lt _ _ (all_below_sound 256 _ b (all_below_sound 8 _ t low_table ht) hb)

high_table :
    all_below 8
      (λ t. all_below 256 (λ b. bit_and (bit_and b (low_mask t)) (0xff * 2 ^ (8 - t) % 256) == 0))
    ≡ true
unfolding all_below
high_table = refl

-- What `pssEncode` clears, `pssVerify` finds clear.
pub top_is_set-clear_top :
    (t : ℕ) (db : Text) → t < 8 → IsBytes db → top_is_set t (clear_top t db) ≡ false
unfolding top_is_set clear_top
top_is_set-clear_top t [] ht hb = rw (zero-bit_and (0xff * 2 ^ (8 - t) % 256))
top_is_set-clear_top t (b ∷ db) ht hb =
    rw (all_below_sound 256 _ b (all_below_sound 8 _ t high_table ht) hb.0)

pub length-clear_top : (t : ℕ) (db : Text) → length (clear_top t db) ≡ length db
unfolding clear_top
length-clear_top t [] = refl
length-clear_top t (b ∷ db) = refl

unmask_table :
    all_below 8 (λ t. all_below 256 (λ g.
      all_below 2
        (λ d. bit_and (bit_xor (bit_and (bit_xor d g) (low_mask t)) g) (low_mask t) == d)))
    ≡ true
unfolding all_below
unmask_table = refl

-- The first byte of DB, 0 or 1, comes back from under the mask and the cleared bits.
unmask_first :
    (t g d : ℕ)
    → t < 8
    → g < 256
    → d < 2
    → bit_and (bit_xor (bit_and (bit_xor d g) (low_mask t)) g) (low_mask t) ≡ d
unmask_first t g d ht hg hd =
    (==_iff _ _).0 (
      all_below_sound 2 _ d (all_below_sound 256 _ g (all_below_sound 8 _ t unmask_table ht) hg) hd)

xor_bytes_cancel :
    (db mask : Text) → length db ≡ length mask → xor_bytes (xor_bytes db mask) mask ≡ db
unfolding xor_bytes
xor_bytes_cancel [] mask e = refl
xor_bytes_cancel (d ∷ db) [] e = absurd (omega arith)
xor_bytes_cancel (d ∷ db) (g ∷ mask) e =
    rw (bit_xor_cancel d g, xor_bytes_cancel db mask (omega arith))

-- Unmasking gives DB back.
pub unmask :
    (t d : ℕ) (db mask : Text)
    → t < 8
    → d < 2
    → IsBytes mask
    → length (d ∷ db) ≡ length mask
    → clear_top t (xor_bytes (clear_top t (xor_bytes (d ∷ db) mask)) mask) ≡ d ∷ db
unfolding clear_top xor_bytes
unmask t d db [] ht hd hm e = absurd (omega arith)
unmask t d db (g ∷ mask) ht hd hm e =
    rw (unmask_first t g d ht hm.0 hd, xor_bytes_cancel db mask (omega arith))

pub length-xor_bytes : (db mask : Text) → length (xor_bytes db mask) ≡ length db
unfolding xor_bytes
length-xor_bytes [] mask = refl
length-xor_bytes (d ∷ db) [] = refl
length-xor_bytes (d ∷ db) (g ∷ mask) = ap suc (length-xor_bytes db mask)

pub xor_bytes-IsBytes : (db mask : Text) → IsBytes db → IsBytes mask → IsBytes (xor_bytes db mask)
unfolding xor_bytes
xor_bytes-IsBytes [] mask hd hm = tt
xor_bytes-IsBytes (d ∷ db) [] hd hm = hd
xor_bytes-IsBytes (d ∷ db) (g ∷ mask) hd hm =
    (bit_xor-lt 8 d g hd.0 hm.0, xor_bytes-IsBytes db mask hd.1 hm.1)

module _ (c : Crypto) (h : IsCrypto c) where
  -- With as many rounds as bytes the loop fills all of them.
  length-mgf1_from :
      (fuel : ℕ) (seed : Text) (i left : ℕ)
      → left ≤ fuel
      → length (mgf1_from c fuel seed i left) ≡ left
  unfolding mgf1_from
  length-mgf1_from zero seed i left le = omega arith
  length-mgf1_from (suc fuel) seed i left le =
      let chunk = c.sha384 (seed ++ fill_bytes 4 (i % 2 ^ 32)) in
      let rest = mgf1_from c fuel seed (i + 1) (left - hash_len) in
      ground (
        arith,
        length-append (take left chunk) rest,
        length-take left chunk,
        h.sha384_length (seed ++ fill_bytes 4 (i % 2 ^ 32)),
        length-mgf1_from fuel seed (i + 1) (left - hash_len),
      )

  mgf1_from-IsBytes : (fuel : ℕ) (seed : Text) (i left : ℕ) → IsBytes (mgf1_from c fuel seed i left)
  unfolding mgf1_from
  mgf1_from-IsBytes zero seed i left = tt
  mgf1_from-IsBytes (suc fuel) seed i left = elim (Bool-cases (left == 0)) [
    | inl done ↦ rw (done, mgf1_from) tt
    | inr more ↦
        let block = seed ++ fill_bytes 4 (i % 2 ^ 32) in
        rw (more, mgf1_from)
          (All-append _ (take left (c.sha384 block)) _
            (All-take _ left (c.sha384 block) (h.sha384_bytes block))
            (mgf1_from-IsBytes fuel seed (i + 1) (left - hash_len)))
  ]

  -- The mask has the length that was asked for, of whatever hash and seed.
  pub length-mgf1_sha384 : (seed : Text) (len : ℕ) → length (mgf1_sha384 c seed len) ≡ len
  unfolding mgf1_sha384
  length-mgf1_sha384 seed len = length-mgf1_from len seed 0 len (le_refl len)

  pub mgf1_sha384-IsBytes : (seed : Text) (len : ℕ) → IsBytes (mgf1_sha384 c seed len)
  unfolding mgf1_sha384
  mgf1_sha384-IsBytes seed len = mgf1_from-IsBytes len seed 0 len

byte_table : all_below 8 (λ t. all_below 256 (λ b. ltb (bit_and b (low_mask t)) 256)) ≡ true
unfolding all_below
byte_table = refl

pub clear_top-IsBytes : (t : ℕ) (db : Text) → t < 8 → IsBytes db → IsBytes (clear_top t db)
unfolding clear_top
clear_top-IsBytes t [] ht hb = tt
clear_top-IsBytes t (b ∷ db) ht hb =
    (ltb→lt _ _ (all_below_sound 256 _ b (all_below_sound 8 _ t byte_table ht) hb.0), hb.1)

-- The number that starts with cleared bits is smaller by as many bits.
pub clear_top-lt :
    (t : ℕ) (db rest : Text)
    → t < 8
    → IsBytes db
    → IsBytes rest
    → 0 < length db
    → to_int (clear_top t db ++ rest) < 2 ^ (8 - t) * 256 ^ (length db + length rest - 1)
unfolding clear_top to_int
clear_top-lt t [] rest ht hb hr pos = absurd (omega arith)
clear_top-lt t (b ∷ db) rest ht hb hr pos =
    let low = to_int-lt (db ++ rest) (All-append _ db rest hb.1 hr) in
    let e : length (b ∷ db) + length rest - 1 ≡ length (db ++ rest) =
      omega (arith, length-append db rest) in
    rw e (below (low-lt t b ht hb.0) low)
  where
    below : {x y p m : ℕ} → x < m → y < p → x * p + y < m * p
    below hx hy = grind arith
