-- ===== src/Challenge/HashCash/Accepts.antt =====
-- What a solution of the puzzle is.
use eu_trust_sdk.Base.{
  ◌+◌, ◌^◌, ◌<◌, ◌≡◌, some, length, ◌++◌, leb→le, Bool-cases, inl, inr, sym, not, true, ℕ, ◌==◌,
  if◌then◌else◌, ◌↔◌, arith, Text, ℕ,
}
use eu_trust_sdk.Base.Bytes.{IsBytes, to_int, fill_bytes, fill_bytes-to_int}
use eu_trust_sdk.Base.Hex
use eu_trust_sdk.Base.Hex.{decode-IsBytes}
use eu_trust_sdk.Crypto.{Crypto, IsCrypto}
use eu_trust_sdk.Challenge.Error.{ok, err, hash_cash_failed}
use eu_trust_sdk.Challenge.HashCash.{HashCashChallenge, check_hash_cash, verify_hash_cash}
use eu_trust_sdk.Challenge.HashCash.Zeros.{leading_zeros_iff}

module _ (c : Crypto) (laws : IsCrypto c) where
  verify-decoded :
      (ch : HashCashChallenge) (nonce sol solution : Text)
      → Hex.decode ch.nonce ≡ some nonce
      → Hex.decode solution ≡ some sol
      → verify_hash_cash c ch solution ≡ (
          if not (length sol == 8)
          then err hash_cash_failed
          else if check_hash_cash c nonce (to_int sol) ch.difficulty_bits
          then ok tt
          else err hash_cash_failed)
  unfolding verify_hash_cash
  verify-decoded ch nonce sol solution en es = rw (en, es, verify_hash_cash)

  check_iff :
      (nonce sol : Text) (d k : ℕ)
      → length sol ≡ 8
      → IsBytes sol
      → k + d ≡ 256
      → (check_hash_cash c nonce (to_int sol) d ≡ true) ↔ (to_int (c.sha256 (nonce ++ sol)) < 2 ^ k)
  unfolding check_hash_cash
  check_iff nonce sol d k long bytes e =
      let same : fill_bytes 8 (to_int sol) ≡ sol = rw (sym long) (fill_bytes-to_int sol bytes) in
      let (to, from) =
        leading_zeros_iff (c.sha256 (nonce ++ sol)) d k (laws.sha256_bytes (nonce ++ sol))
          (rw (laws.sha256_length (nonce ++ sol)) e) in
      rw same (λ h. to (leb→le d _ h), λ h. ground (arith, from h))

  -- A text is accepted as the solution of a hashcash puzzle exactly when it is the hex text of
  -- eight bytes such that the digest of the puzzle's nonce followed by these bytes, as a number,
  -- lies below 2 ^ (256 - d), for the difficulty of d bits, where d is at most 256 and the
  -- puzzle's own nonce is a hex text.
  pub verify_hash_cash_iff :
      (ch : HashCashChallenge) (nonce sol : Text) (solution : Text) (k : ℕ)
      → Hex.decode ch.nonce ≡ some nonce
      → Hex.decode solution ≡ some sol
      → k + ch.difficulty_bits ≡ 256
      → (verify_hash_cash c ch solution ≡ ok tt)
        ↔ ((length sol ≡ 8) × (to_int (c.sha256 (nonce ++ sol)) < 2 ^ k))
  verify_hash_cash_iff ch nonce sol solution k en es e =
      rw (verify-decoded ch nonce sol solution en es) (elim (Bool-cases (length sol == 8)) [
        | inl long ↦
            let n : length sol ≡ 8 = ground (arith, long) in
            ground (
              arith,
              check_iff nonce sol ch.difficulty_bits k n (decode-IsBytes solution sol es) e,
              long,
            )
        | inr short ↦ ground (arith, short)
      ])
