-- ===== src/Rsa/Pss.antt =====
-- EMSA-PSS of internal/rsapbssa/rsapbssa.go: `pssEncode`, `pssVerify`, `mgf1SHA384`, `xorBytes`.
mod Masks
mod Padding
pub mod Number
pub mod Accepts
pub mod RoundTrip
use Prim.Native.Nat.{bit_and, bit_xor}
use eu_trust_sdk.Base.{
  ℕ, zero, suc, ◌+◌, ◌-◌, ◌*◌, ◌/◌, ◌%◌, ◌^◌, Bool, true, false, not, Option, none, some, [], ◌∷◌,
  ◌++◌, length, take, drop, get_or, replicate, ltb, ◌==◌, text_eq, if◌then◌else◌, Text,
}
use eu_trust_sdk.Base.Bytes.{fill_bytes}
use eu_trust_sdk.Crypto.{Crypto}
use eu_trust_sdk.Rsa.Error.{Result, ok, err, encoding_error, invalid_sig, read_error}

abbrev pub hash_len : ℕ
hash_len = 48

abbrev pub salt_len : ℕ
salt_len = 48

-- `xorBytes`: the masks are as long as what they mask.
unfoldable pub xor_bytes : Text → Text → Text
xor_bytes [] src = []
xor_bytes (d ∷ dst) [] = d ∷ dst
xor_bytes (d ∷ dst) (s ∷ src) = bit_xor d s ∷ xor_bytes dst src

-- `db[0] &= 0xFF >> topBits`
unfoldable pub clear_top : ℕ → Text → Text
clear_top top_bits [] = []
clear_top top_bits (b ∷ db) = bit_and b (0xff / 2 ^ top_bits) ∷ db

-- `maskedDB[0] & (0xFF << (8 - topBits)) != 0`, the shift cut to a byte.
unfoldable pub top_is_set : ℕ → Text → Bool
top_is_set top_bits db = not (bit_and (get_or db 0 0) (0xff * 2 ^ (8 - top_bits) % 256) == 0)

-- Every one of the first `n` bytes is zero: the loop over `db[i] != 0x00`.
unfoldable pub starts_with_zeros : ℕ → Text → Bool
starts_with_zeros zero db = true
starts_with_zeros (suc n) [] = false
starts_with_zeros (suc n) (b ∷ db) =
    let rest = starts_with_zeros n db in if b == 0 then rest else false

module _ (c : Crypto) where
  -- The loop of `mgf1SHA384`, round `i` with `left` bytes still to fill. A round fills 48 of them,
  -- so `left` rounds are enough.
  unfoldable pub mgf1_from : ℕ → Text → ℕ → ℕ → Text
  mgf1_from zero seed i left = []
  mgf1_from (suc fuel) seed i left = elim (left == 0) [
    | true ↦ []
    | false ↦
        take left (c.sha384 (seed ++ fill_bytes 4 (i % 2 ^ 32)))
        ++ mgf1_from fuel seed (i + 1) (left - hash_len)
  ]

  unfoldable pub mgf1_sha384 : Text → ℕ → Text
  unfolding mgf1_from
  mgf1_sha384 seed len = mgf1_from len seed 0 len

  -- M' = eight zero bytes, the hash of the message, the salt; and its hash.
  unfoldable pub salted_hash : Text → Text → Text
  salted_hash msg salt = c.sha384 (replicate 8 0 ++ (c.sha384 msg ++ salt))

  -- The salt is what is read from `rng`, 48 bytes, or `none` where the read fails.
  unfoldable pub pss_encode : Option Text → Text → ℕ → Result Text
  pss_encode rng msg em_bits =
      let em_len = (em_bits + 7) / 8 in
      if ltb em_len (hash_len + salt_len + 2) then err encoding_error else elim rng [
        | none ↦ err read_error
        | some salt ↦
            let h = salted_hash msg salt in
            let db_len = em_len - hash_len - 1 in
            let ps_len = db_len - salt_len - 1 in
            let db = replicate ps_len 0 ++ 1 ∷ salt in
            let masked = xor_bytes db (mgf1_sha384 h db_len) in
            ok (clear_top (8 * em_len - em_bits) masked ++ (h ++ 0xbc ∷ []))
      ]

  -- The tests after the mask is taken off.
  unfoldable pub check_db : Text → Text → Text → ℕ → Result (Unit {0})
  unfolding salted_hash starts_with_zeros
  check_db msg h db ps_len =
      if not (starts_with_zeros ps_len db)
      then err invalid_sig
      else if not (get_or db ps_len 0 == 1)
      then err invalid_sig
      else if text_eq h (salted_hash msg (drop (ps_len + 1) db))
      then ok tt
      else err invalid_sig

  unfoldable pub pss_verify : Text → Text → ℕ → Result (Unit {0})
  pss_verify msg em em_bits =
      let em_len = (em_bits + 7) / 8 in
      let db_len = em_len - hash_len - 1 in
      let top_bits = 8 * em_len - em_bits in
      let masked = take db_len em in
      let h = take hash_len (drop db_len em) in
      if not (length em == em_len)
      then err invalid_sig
      else if ltb em_len (hash_len + salt_len + 2)
      then err invalid_sig
      else if not (get_or em (em_len - 1) 0 == 0xbc)
      then err invalid_sig
      else if top_is_set top_bits masked
      then err invalid_sig
      else check_db msg h (clear_top top_bits (xor_bytes masked (mgf1_sha384 h db_len)))
          (db_len - salt_len - 1)
