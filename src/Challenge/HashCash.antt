-- ===== src/Challenge/HashCash.antt =====
-- internal/challenge/hashcash.go: the SHA-256 puzzle.
pub mod Zeros
pub mod Accepts
use Prim.Native.Nat.{bit_and}
use eu_trust_sdk.Base.{
  ℕ, zero, suc, ◌+◌, ◌/◌, ◌%◌, Bool, not, ◌||◌, Option, none, some, [], ◌∷◌, ◌++◌, length, leb,
  ◌==◌, if◌then◌else◌, Text,
}
use eu_trust_sdk.Base.Bytes.{to_int, fill_bytes}
use eu_trust_sdk.Base.Hex
use eu_trust_sdk.Crypto.{Crypto}
use eu_trust_sdk.Challenge.Error.{Result, ok, err, hash_cash_failed, invalid_nonce, read_error}

pub record HashCashChallenge : Type 0 where
  pub nonce : Text
  pub difficulty_bits : ℕ

-- The 16 bytes read from crypto/rand; `none` is a read error.
unfoldable pub new_hash_cash_challenge : Option Text → ℕ → Result HashCashChallenge
new_hash_cash_challenge none difficulty_bits = err read_error
new_hash_cash_challenge (some nonce) difficulty_bits =
    ok (record { nonce = Hex.encode nonce; difficulty_bits = difficulty_bits })

-- The loop over `mask`, which is 0 after at most eight shifts.
unfoldable pub scan_mask : ℕ → ℕ → ℕ → ℕ → ℕ
scan_mask zero mask b count = count
scan_mask (suc rounds) mask b count =
    let rest = scan_mask rounds (mask / 2) b (count + 1) in
    if mask == 0 || not (bit_and b mask == 0) then count else rest

unfoldable pub zero_bits_from : ℕ → Text → ℕ
unfolding scan_mask
zero_bits_from count [] = count
zero_bits_from count (b ∷ bs) =
    let rest = zero_bits_from (count + 8) bs in if b == 0 then rest else scan_mask 9 0x80 b count

unfoldable pub count_leading_zero_bits : Text → ℕ
unfolding zero_bits_from
count_leading_zero_bits b = zero_bits_from 0 b

module _ (c : Crypto) where
  unfoldable pub check_hash_cash : Text → ℕ → ℕ → Bool
  check_hash_cash nonce counter diff_bits =
      leb diff_bits (count_leading_zero_bits (c.sha256 (nonce ++ fill_bytes 8 counter)))

  unfoldable pub verify_hash_cash : HashCashChallenge → Text → Result (Unit {0})
  verify_hash_cash ch solution = elim (Hex.decode ch.nonce) [
    | none ↦ err invalid_nonce
    | some nonce_bytes ↦ elim (Hex.decode solution) [
      | none ↦ err hash_cash_failed
      | some sol_bytes ↦
          if not (length sol_bytes == 8)
          then err hash_cash_failed
          else if check_hash_cash nonce_bytes (to_int sol_bytes) ch.difficulty_bits
          then ok tt
          else err hash_cash_failed
    ]
  ]
