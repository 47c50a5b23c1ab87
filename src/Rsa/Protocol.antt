-- ===== src/Rsa/Protocol.antt =====
-- The protocol of internal/rsapbssa/rsapbssa.go: `Blind`, `BlindSign`, `Finalize`, `Verify`.
pub mod Correct
pub mod Misaligned
use eu_trust_sdk.Base.{
  ℕ, ◌+◌, ◌-◌, ◌*◌, ◌/◌, ◌%◌, ◌^◌, not, Option, none, some, [], ◌∷◌, ◌++◌, codes, length, ltb, leb,
  ◌==◌, if◌then◌else◌, Text,
}
use eu_trust_sdk.Base.Bytes.{to_int, fill_bytes}
use eu_trust_sdk.Crypto.{Crypto}
use eu_trust_sdk.Rsa.Arith.{bit_len, mod_exp, mod_inverse}
use eu_trust_sdk.Rsa.Error.{
  Result, ok, err, blinding_error, invalid_input, signing_failure, invalid_sig, read_error, panic,
  ◌>>=◌,
}
use eu_trust_sdk.Rsa.Keys.{
  KeyPair, PublicKey, public_key, modulus_len, derive_public_key, derive_key_pair,
}
use eu_trust_sdk.Rsa.Pss.{pss_encode, pss_verify}

-- `buildMsgPrime`: the four bytes are the length cut to 32 bits.
unfoldable pub build_msg_prime : Text → Text → Text
build_msg_prime msg info = codes "msg" ++ (fill_bytes 4 (length info % 2 ^ 32) ++ (info ++ msg))

-- The blinded message, and the client's secret inverse.
pub record Blinded : Type 0 where
  pub blinded_msg : Text
  pub inv : ℕ

-- What `Blind` draws: the bytes read from `rng` for the salt, and the number below the modulus that
-- it draws where no blinding factor is given; `none` is a read error.
pub record Draws : Type 0 where
  pub salt : Option Text
  pub factor : Option ℕ

-- `r := randomBlind`, or a drawn number.
unfoldable pub blinding_factor : Option ℕ → Option ℕ → Result ℕ
blinding_factor (some r) drawn = ok r
blinding_factor none none = err read_error
blinding_factor none (some r) = ok r

unfoldable pub unwrap : Option ℕ → Result ℕ
unwrap none = err blinding_error
unwrap (some inv) = ok inv

module _ (c : Crypto) where
  unfoldable pub blind : Draws → PublicKey → Text → Text → Option ℕ → Result Blinded
  blind draws pk msg info random_blind = do
    em ← pss_encode c draws.salt (build_msg_prime msg info) (bit_len pk.n - 1)
    r ← blinding_factor random_blind draws.factor
    inv ← unwrap (mod_inverse r pk.n)
    derived ← derive_public_key c pk info
    let x = mod_exp r derived.e pk.n
    let z = to_int em * x % pk.n
    ok (record { blinded_msg = fill_bytes (modulus_len pk.n) z; inv = inv })

  -- The exponentiation and its check, once the exponents are there.
  unfoldable pub sign_checked : KeyPair → ℕ → ℕ × ℕ → Result Text
  sign_checked kp m exponents =
      let s = mod_exp m exponents.1 kp.n in
      if not (mod_exp s exponents.0 kp.n == m)
      then err signing_failure
      else ok (fill_bytes (modulus_len kp.n) s)

  unfoldable pub blind_sign : KeyPair → Text → Text → Result Text
  blind_sign kp blinded_msg info =
      let m = to_int blinded_msg in
      if leb kp.n m
      then err invalid_input
      else do exponents ← derive_key_pair c kp info; sign_checked kp m exponents

  unfoldable pub verify : PublicKey → Text → Text → Text → Result (Unit {0})
  verify pk msg info sig = if not (length sig == modulus_len pk.n) then err invalid_sig else do
    derived ← derive_public_key c pk info
    let s = to_int sig
    if leb pk.n s
        then err invalid_sig
        else pss_verify c (build_msg_prime msg info)
            (fill_bytes (modulus_len pk.n) (mod_exp s derived.e pk.n)) (bit_len pk.n - 1)

  -- Any error of the check is reported as `ErrInvalidSig`; a panic goes through.
  unfoldable pub or_invalid : Text → Result (Unit {0}) → Result Text
  or_invalid sig (ok _) = ok sig
  or_invalid sig (err panic) = err panic
  or_invalid sig (err _) = err invalid_sig

  unfoldable pub finalize : PublicKey → Text → Text → Text → ℕ → Result Text
  finalize pk msg info blind_sig inv =
      if not (length blind_sig == modulus_len pk.n)
      then err invalid_input
      else let sig = fill_bytes (modulus_len pk.n) (to_int blind_sig * inv % pk.n) in
        or_invalid sig (verify pk msg info sig)
