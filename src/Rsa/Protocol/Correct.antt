-- ===== src/Rsa/Protocol/Correct.antt =====
-- A signature that was blinded, signed and unblinded verifies.
mod Unblind
pub mod Runs
use native.Mathlib.Nat.{mod-lt, mod-eq_of_lt, mod-mod, pow-le-pow_right, pow-suc}
use eu_trust_sdk.Base.{
  ℕ, zero, suc, ◌+◌, ◌-◌, ◌*◌, ◌/◌, ◌%◌, ◌^◌, ◌≤◌, ◌<◌, ◌≡◌, ◌≢◌, refl, ap, sym, subst, ◌∙◌, true,
  false, not, Option, none, some, [], ◌∷◌, ◌++◌, arith, length, ltb, leb, ◌==◌, ==_refl, Bool-cases,
  inl, inr, if◌then◌else◌, Text,
}
use eu_trust_sdk.Base.Bytes.{
  IsBytes, to_int, fill_bytes, length-fill_bytes, to_int-fill_bytes, fill_bytes-to_int,
}
use eu_trust_sdk.Crypto.{Crypto, IsCrypto}
use eu_trust_sdk.Rsa.Arith.{
  bit_len, bit_len-bounds, mod_exp, mod_inverse, mod_inverse_sound, pow-bytes,
}
use eu_trust_sdk.Rsa.Error.{Result, ok, err, ◌>>=◌, >>=-eq-ok, ok-injective}
use eu_trust_sdk.Rsa.Keys.{
  KeyPair, PublicKey, DerivedPublicKey, public_key, modulus_len, derive_public_key, derive_key_pair,
}
use eu_trust_sdk.Rsa.Pss.{pss_encode, pss_verify}
use eu_trust_sdk.Rsa.Protocol.{
  build_msg_prime, Blinded, Draws, blinding_factor, unwrap, blind, sign_checked, blind_sign, verify,
  or_invalid, finalize,
}
use Unblind.{unblind}
use Runs.{IsSigned, blind_sign-eq-ok, derive_key_pair-eq-ok, IsBlinded, blind-eq-ok}
use eu_trust_sdk.Rsa.Pss.RoundTrip.{encoded, length-encoded, pss_verify-encoded}
use eu_trust_sdk.Rsa.Pss.Number.{pss_encode-eq-ok, encoded-IsBytes, encoded-lt}

-- A modulus fits its bytes.
pub modulus-fits : (n : ℕ) → 0 < n → n < 256 ^ modulus_len n
unfolding modulus_len
modulus-fits n pos =
    let b = (bit_len n + 7) / 8 in
    subst (λ k. n < k) (sym (pow-bytes b))
      (omega (
        arith,
        bit_len-bounds n pos,
        pow-le-pow_right {n = 2} (omega arith) {i = bit_len n} {j = 8 * b} (omega arith),
      ))

module _ (c : Crypto) (h : IsCrypto c) where
  aligned_len : (b : ℕ) → b % 8 ≢ 1 → (b + 7) / 8 ≡ (b - 1 + 7) / 8
  aligned_len b h = omega arith

  -- `Verify` accepts a signature that is in range and whose power is an encoding of the message.
  verify-encoded :
      (pk : PublicKey) (msg info salt : Text) (key : DerivedPublicKey) (s : ℕ)
      → derive_public_key c pk info ≡ ok key
      → s < pk.n
      → bit_len pk.n % 8 ≢ 1
      → 98 ≤ (bit_len pk.n - 1 + 7) / 8
      → length salt ≡ 48
      → IsBytes salt
      → mod_exp s key.e pk.n
        ≡ to_int (encoded c h (build_msg_prime msg info) salt (bit_len pk.n - 1))
      → verify c pk msg info (fill_bytes (modulus_len pk.n) s) ≡ ok tt
  unfolding verify modulus_len
  verify-encoded pk msg info salt key s derived small aligned long salt_length salt_bytes power =
      let msg' = build_msg_prime msg info in
      let em = encoded c h msg' salt (bit_len pk.n - 1) in
      let len : modulus_len pk.n ≡ length em =
        aligned_len (bit_len pk.n) aligned
        ∙ sym (length-encoded c h msg' salt (bit_len pk.n - 1) long salt_length) in
      let value : to_int (fill_bytes (modulus_len pk.n) s) ≡ s =
        to_int-fill_bytes (modulus_len pk.n) s (omega (arith, modulus-fits pk.n (omega arith))) in
      let below : leb pk.n s ≡ false = ground arith in
      let same : fill_bytes (modulus_len pk.n) (to_int em) ≡ em =
        ap (λ (k : ℕ). fill_bytes k (to_int em)) len
        ∙ fill_bytes-to_int em
            (encoded-IsBytes c h msg' salt (bit_len pk.n - 1) long salt_length salt_bytes) in
      rw
        (
          length-fill_bytes (modulus_len pk.n) s,
          ==_refl (modulus_len pk.n),
          derived,
          value,
          below,
          power,
          same,
        )
        (pss_verify-encoded c h msg' salt (bit_len pk.n - 1) long salt_length salt_bytes)

positive : (n : ℕ) → 0 < bit_len n → 0 < n
unfolding bit_len
positive zero h = h
positive (suc n) h = omega arith

half-modulus : (n : ℕ) → 0 < bit_len n → 2 ^ (bit_len n - 1) ≤ n
half-modulus n pos =
    let e : bit_len n ≡ suc (bit_len n - 1) = omega arith in
    omega
      (arith, bit_len-bounds n (positive n pos), ap (λ (k : ℕ). 2 ^ k) e, pow-suc 2 (bit_len n - 1))

-- The salt that `Blind` reads is 48 bytes.
abbrev pub IsSalt : Option Text → Type 0
IsSalt none = Unit
IsSalt (some salt) = (length salt ≡ 48) × IsBytes salt

-- Where `Blind` and `BlindSign` succeed, with a salt of 48 bytes and a modulus whose bits are not one
-- more than a whole number of bytes, `Finalize` of what they made returns a signature, and `Verify`
-- accepts it for the same message and metadata.
pub finalize-blind_sign-blind :
    (c : Crypto) (kp : KeyPair) (msg info : Text) (draws : Draws) (random_blind : Option ℕ)
    (b : Blinded) (blind_sig : Text)
    → IsCrypto c
    → bit_len kp.n % 8 ≢ 1
    → IsSalt draws.salt
    → blind c draws (public_key kp) msg info random_blind ≡ ok b
    → blind_sign c kp b.blinded_msg info ≡ ok blind_sig
    → (sig : Text) × (finalize c (public_key kp) msg info blind_sig b.inv ≡ ok sig)
      × (verify c (public_key kp) msg info sig ≡ ok tt)
unfolding finalize or_invalid mod_exp
finalize-blind_sign-blind c kp msg info draws random_blind b blind_sig h aligned salted blinds
      signs =
    let n = kp.n in
    let pk = public_key kp in
    let p = blind-eq-ok c draws pk msg info random_blind b blinds in
    let q = blind_sign-eq-ok c kp b.blinded_msg info blind_sig signs in
    let e = p.key.e in
    let bits = bit_len n - 1 in
    let (salt, read, long, encoding) =
      pss_encode-eq-ok c h draws.salt (build_msg_prime msg info) bits p.em p.encoding in
    let (salt_length, salt_bytes) = subst IsSalt read salted in
    let pos : 0 < n = positive n (omega arith) in
    let fits = modulus-fits n pos in
    let m = to_int p.em in
    let (inverse, _) = mod_inverse_sound p.r n b.inv p.inverse in
    let m-lt : m < n = omega (
      arith,
      ap to_int encoding,
      encoded-lt c h (build_msg_prime msg info) salt bits long salt_length salt_bytes,
      half-modulus n (omega arith),
    ) in
    let (k, derived, same_e) = derive_key_pair-eq-ok c kp info q.e' q.d' q.derived in
    let e-eq : q.e' ≡ e =
      sym same_e ∙ ap (λ (x : DerivedPublicKey). x.e) (ok-injective (sym derived ∙ p.derived)) in
    let blinded_value : to_int b.blinded_msg ≡ m * (p.r ^ e % n) % n =
      ap to_int p.blinding
      ∙ to_int-fill_bytes (modulus_len n) (m * (p.r ^ e % n) % n)
          (omega (arith, fits, mod-lt (m * (p.r ^ e % n)) pos)) in
    let s = mod_exp (to_int b.blinded_msg) q.d' n in
    let s-value : to_int blind_sig ≡ s =
      ap to_int q.signed
      ∙ to_int-fill_bytes (modulus_len n) s
          (omega (arith, fits, mod-lt (to_int b.blinded_msg ^ q.d') pos)) in
    let s-power : s ^ e % n ≡ m * (p.r ^ e % n) % n =
      ap (λ (t : ℕ). s ^ t % n) (sym e-eq) ∙ q.checked ∙ blinded_value in
    let sig_power : (s * b.inv % n) ^ e % n ≡ m = unblind n p.r b.inv e inverse s m s-power m-lt in
    let sig = fill_bytes (modulus_len n) (s * b.inv % n) in
    let verified : verify c pk msg info sig ≡ ok tt =
      verify-encoded c h pk msg info salt p.key (s * b.inv % n) p.derived (mod-lt (s * b.inv) pos)
        aligned long salt_length salt_bytes (sig_power ∙ ap to_int encoding) in
    let blind_sig_length : length blind_sig ≡ modulus_len n =
      ap (length {A = ℕ}) q.signed ∙ length-fill_bytes (modulus_len n) s in
    (sig, rw (blind_sig_length, ==_refl (modulus_len n), s-value, verified), verified)
