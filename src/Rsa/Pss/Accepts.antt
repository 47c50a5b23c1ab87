-- ===== src/Rsa/Pss/Accepts.antt =====
-- `pssVerify` against `pssEncode`, by their results.
use eu_trust_sdk.Base.{ℕ, ◌≡◌, sym, arith, ◌∙◌, some, length, Text}
use eu_trust_sdk.Base.Bytes.{IsBytes}
use eu_trust_sdk.Crypto.{Crypto, IsCrypto}
use eu_trust_sdk.Rsa.Error.{ok, ok-injective}
use eu_trust_sdk.Rsa.Pss.{pss_encode, pss_verify}
use eu_trust_sdk.Rsa.Pss.RoundTrip.{pss_verify-encoded}
use eu_trust_sdk.Rsa.Pss.Number.{pss_encode-eq-ok, accepted}

module _ (c : Crypto) (h : IsCrypto c) where
  -- Whatever `pssEncode` makes of a message with a salt of 48 bytes, for any number of bits, passes
  -- `pssVerify` for that message and number of bits.
  pub pss_verify-pss_encode :
      (msg salt em : Text) (em_bits : ℕ)
      → length salt ≡ 48
      → IsBytes salt
      → pss_encode c (some salt) msg em_bits ≡ ok em
      → pss_verify c msg em em_bits ≡ ok tt
  pss_verify-pss_encode msg salt em em_bits salt_length salt_bytes e =
      let (_, _, long, _) = pss_encode-eq-ok c h (some salt) msg em_bits em e in
      let same = ok-injective (sym e ∙ accepted c h salt msg em_bits (ground (arith, long))) in
      rw same (pss_verify-encoded c h msg salt em_bits long salt_length salt_bytes)
