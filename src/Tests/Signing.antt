-- ===== src/Tests/Signing.antt =====
-- Blind signatures and their encoding.
use eu_trust_sdk.Base.{
  ◌*◌, ◌/◌, ◌<◌, ◌≢◌, ◌+◌, ◌%◌, ◌^◌, ◌≡◌, refl, arith, some, none, [], ◌∷◌, ◌++◌, codes, replicate,
  Text,
}
use eu_trust_sdk.Rsa.Arith.{bit_len_from, bit_len, mod_exp, inverse_from, mod_inverse}
use eu_trust_sdk.Rsa.Error.{ok, invalid_input, err}
use eu_trust_sdk.Rsa.Keys.{
  KeyPair, public_key, modulus_len, exponent_of, derive_public_key, derive_key_pair,
}
use eu_trust_sdk.Rsa.Pss.{
  xor_bytes, clear_top, top_is_set, starts_with_zeros, mgf1_from, mgf1_sha384, salted_hash,
  pss_encode, check_db, pss_verify,
}
use eu_trust_sdk.Rsa.Pss.Accepts.{pss_verify-pss_encode}
use eu_trust_sdk.Rsa.Protocol.{
  build_msg_prime, Blinded, Draws, blinding_factor, unwrap, blind, sign_checked, blind_sign, verify,
  or_invalid, finalize,
}
use eu_trust_sdk.Rsa.Protocol.Correct.{finalize-blind_sign-blind}
use eu_trust_sdk.Base.Bytes.{to_int, fill_bytes}
use eu_trust_sdk.Rsa.Keys.{DerivedPublicKey, PublicKey}
use eu_trust_sdk.Rsa.Keys.Derived.{derive_public_key_odd}
use eu_trust_sdk.Rsa.Protocol.Misaligned.{verify-misaligned}
use eu_trust_sdk.Tests.Toy.{toy, zeros-IsBytes, toy-IsCrypto}

program : Unit {0}
unfolding bit_len_from bit_len mod_exp inverse_from mod_inverse modulus_len exponent_of
    derive_public_key derive_key_pair xor_bytes clear_top top_is_set starts_with_zeros mgf1_from
    mgf1_sha384 salted_hash pss_encode check_db pss_verify build_msg_prime blinding_factor unwrap
    blind sign_checked blind_sign verify or_invalid finalize to_int fill_bytes
program = tt

-- A modulus of 784 bits, the shortest that has room for the encoding.
abbrev kp : KeyPair
kp = record { n = 2 ^ 783 + 1; e = 65537; d = 1; p = 2; q = 3; phi = 10 }

abbrev msg : Text
msg = codes "nonce"

abbrev info : Text
info = 2 ∷ 0 ∷ 1 ∷ 0 ∷ 0 ∷ 0 ∷ 7 ∷ []

abbrev draws : Draws
draws = record { salt = some (replicate 48 0); factor = none }

abbrev em : Text
em = 1 ∷ (replicate 96 0 ++ 0xbc ∷ [])

abbrev blinded : Blinded
blinded = record { blinded_msg = em; inv = 1 }

blind_run : blind toy draws (public_key kp) msg info (some 1) ≡ ok blinded
unfolding program
blind_run = refl

sign_run : blind_sign toy kp em info ≡ ok em
unfolding program
sign_run = refl

-- A message that is not below the modulus is refused.
sign_too_large : blind_sign toy kp (0xff ∷ replicate 97 0) info ≡ err invalid_input
unfolding program
sign_too_large = refl

encode_run : pss_encode toy (some (replicate 48 0)) msg 783 ≡ ok em
unfolding program
encode_run = refl

pss_verify_example : pss_verify toy msg em 783 ≡ ok tt
pss_verify_example =
    pss_verify-pss_encode toy toy-IsCrypto msg (replicate 48 0) em 783 refl (zeros-IsBytes 48)
      encode_run

aligned : bit_len kp.n % 8 ≡ 0
unfolding program
aligned = refl

protocol_example :
    (sig : Text) × (finalize toy (public_key kp) msg info em 1 ≡ ok sig)
    × (verify toy (public_key kp) msg info sig ≡ ok tt)
protocol_example =
    finalize-blind_sign-blind toy kp msg info draws (some 1) blinded em toy-IsCrypto
      (omega (arith, aligned)) (refl, zeros-IsBytes 48) blind_run sign_run

-- A modulus of 785 bits.
abbrev odd_key : PublicKey
odd_key = record { n = 2 ^ 784 + 1; e = 65537 }

one_over : bit_len odd_key.n % 8 ≡ 1
unfolding program
one_over = refl

misaligned_example : verify toy odd_key msg info (replicate 99 0) ≢ ok tt
misaligned_example = verify-misaligned toy odd_key msg info (replicate 99 0) one_over

abbrev derived : DerivedPublicKey
derived = record { n = kp.n; e = 1 }

derived_run : derive_public_key toy (public_key kp) info ≡ ok derived
unfolding program
derived_run = refl

exponent_example :
    (derived.n ≡ kp.n) × (derived.e % 2 ≡ 1) × (4 * derived.e < 256 ^ (modulus_len kp.n / 2))
exponent_example = derive_public_key_odd toy toy-IsCrypto (public_key kp) info derived derived_run
