-- ===== src/Rsa/Generate/Completes.antt =====
-- The protocol with a key of safe primes, such as `GenerateKey` makes.
use native.Mathlib.Nat.{mod-lt}
use eu_trust_sdk.Base.{ℕ, ◌*◌, ◌%◌, ◌<◌, ◌≡◌, ◌≢◌, ap, ◌∙◌, arith, Option, Text}
use eu_trust_sdk.Base.Bytes.{to_int, fill_bytes, to_int-fill_bytes}
use eu_trust_sdk.Crypto.{Crypto, IsCrypto}
use eu_trust_sdk.Rsa.Arith.{bit_len, mod_exp}
use eu_trust_sdk.Rsa.Error.{ok}
use eu_trust_sdk.Rsa.Keys.{KeyPair, public_key, modulus_len}
use eu_trust_sdk.Rsa.Protocol.{Blinded, Draws, blind, blind_sign, finalize, verify}
use eu_trust_sdk.Rsa.Protocol.Correct.{modulus-fits, IsSalt, finalize-blind_sign-blind}
use eu_trust_sdk.Rsa.Protocol.Correct.Runs.{blind-eq-ok}
use eu_trust_sdk.Rsa.Generate.Safe.{IsSafeKey, modulus_pos}
use eu_trust_sdk.Rsa.Generate.Signs.{blind_sign_total}

-- With a key of two safe primes, of a whole number of 16 bits, whatever `Blind` made of a message and
-- metadata with a salt of 48 bytes, `BlindSign` signs it, `Finalize` returns a signature, and `Verify`
-- accepts that for the message and the metadata.
pub blind-completes :
    (c : Crypto) (bits : ℕ) (kp : KeyPair) (msg info : Text) (draws : Draws)
    (random_blind : Option ℕ) (b : Blinded)
    → IsCrypto c
    → IsSafeKey bits kp
    → bits % 16 ≡ 0
    → IsSalt draws.salt
    → blind c draws (public_key kp) msg info random_blind ≡ ok b
    → (blind_sig : Text) × (sig : Text) × (blind_sign c kp b.blinded_msg info ≡ ok blind_sig)
      × (finalize c (public_key kp) msg info blind_sig b.inv ≡ ok sig)
      × (verify c (public_key kp) msg info sig ≡ ok tt)
blind-completes c bits kp msg info draws random_blind b laws safe whole salted blinds =
    let n = kp.n in
    let pos = modulus_pos bits kp safe in
    let p = blind-eq-ok c draws (public_key kp) msg info random_blind b blinds in
    let z = to_int p.em * mod_exp p.r p.key.e n in
    let value : to_int b.blinded_msg ≡ z % n =
      ap to_int p.blinding
      ∙ to_int-fill_bytes (modulus_len n) (z % n)
          (omega (arith, modulus-fits n pos, mod-lt z pos)) in
    let small : to_int b.blinded_msg < n = omega (arith, value, mod-lt z pos) in
    let (s, signs, _, _) =
      blind_sign_total c laws bits kp safe whole b.blinded_msg info p.key p.derived small in
    let blind_sig = fill_bytes (modulus_len n) s in
    let aligned : bit_len n % 8 ≢ 1 = λ e. absurd (omega (arith, e, safe.size, whole)) in
    let (sig, finalizes, verifies) =
      finalize-blind_sign-blind c kp msg info draws random_blind b blind_sig laws aligned salted
        blinds signs in
    (blind_sig, sig, signs, finalizes, verifies)
