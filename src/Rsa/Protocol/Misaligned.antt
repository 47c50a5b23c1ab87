-- ===== src/Rsa/Protocol/Misaligned.antt =====
-- Keys whose modulus has one bit more than a whole number of bytes.
use eu_trust_sdk.Base.{
  ℕ, ◌+◌, ◌-◌, ◌/◌, ◌%◌, ◌≡◌, ◌≢◌, false, length, ◌==◌, leb, arith, Bool-cases, inl, inr, Text,
}
use eu_trust_sdk.Base.Bytes.{to_int, fill_bytes, length-fill_bytes}
use eu_trust_sdk.Crypto.{Crypto}
use eu_trust_sdk.Rsa.Arith.{bit_len, mod_exp}
use eu_trust_sdk.Rsa.Error.{Result-cases, err, ok, invalid_sig}
use eu_trust_sdk.Rsa.Keys.{PublicKey, modulus_len, derive_public_key}
use eu_trust_sdk.Rsa.Pss.{pss_verify}
use eu_trust_sdk.Rsa.Protocol.{build_msg_prime, verify}

module _ (c : Crypto) where
  other_length :
      (msg em : Text) (bits : ℕ)
      → (length em == (bits + 7) / 8) ≡ false
      → pss_verify c msg em bits ≡ err invalid_sig
  unfolding pss_verify
  other_length msg em bits e = rw e

  too_long :
      (n : ℕ) (x : ℕ)
      → bit_len n % 8 ≡ 1
      → (length (fill_bytes (modulus_len n) x) == (bit_len n - 1 + 7) / 8) ≡ false
  unfolding modulus_len
  too_long n x one = rw (length-fill_bytes ((bit_len n + 7) / 8) x) (ground arith)

  -- Where the bits of the modulus are one more than a whole number of bytes, `Verify` accepts no
  -- signature at all.
  pub verify-misaligned :
      (pk : PublicKey) (msg info sig : Text)
      → bit_len pk.n % 8 ≡ 1
      → verify c pk msg info sig ≢ ok tt
  unfolding verify
  verify-misaligned pk msg info sig one = elim (Bool-cases (length sig == modulus_len pk.n)) [
    | inr other ↦ rw other (λ e. cc)
    | inl same ↦ elim (Result-cases (derive_public_key c pk info)) [
      | inr (x, failure) ↦ rw (same, failure) (λ e. cc)
      | inl (derived, good) ↦ elim (Bool-cases (leb pk.n (to_int sig))) [
        | inl large ↦ rw (same, good, large) (λ e. cc)
        | inr below ↦
            let m = mod_exp (to_int sig) derived.e pk.n in
            rw
              (
                same,
                good,
                below,
                other_length (build_msg_prime msg info) (fill_bytes (modulus_len pk.n) m)
                    (bit_len pk.n - 1) (too_long pk.n m one),
              )
              (λ e. cc)
      ]
    ]
  ]
