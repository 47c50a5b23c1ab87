-- ===== src/Rsa/Protocol/Correct/Runs.antt =====
-- What a successful `Blind` and a successful `BlindSign` have computed.
use eu_trust_sdk.Base.{
  ℕ, ◌-◌, ◌*◌, ◌%◌, ◌<◌, ◌≡◌, ap, sym, ◌∙◌, Option, none, some, arith, leb, Bool-cases, inl, inr,
  Text,
}
use eu_trust_sdk.Base.Bytes.{to_int, fill_bytes}
use eu_trust_sdk.Crypto.{Crypto}
use eu_trust_sdk.Rsa.Arith.{bit_len, mod_exp, mod_inverse}
use eu_trust_sdk.Rsa.Error.{ok, ◌>>=◌, >>=-eq-ok, ok-injective}
use eu_trust_sdk.Rsa.Keys.{
  KeyPair, PublicKey, DerivedPublicKey, public_key, modulus_len, derive_public_key, derive_key_pair,
}
use eu_trust_sdk.Rsa.Pss.{pss_encode}
use eu_trust_sdk.Rsa.Protocol.{
  build_msg_prime, Blinded, Draws, blinding_factor, unwrap, blind, sign_checked, blind_sign,
}

module _ (c : Crypto) where
  -- What a successful `BlindSign` has computed.
  pub record IsSigned (kp : KeyPair) (m : ℕ) (info sig : Text) : Type 0 where
    pub e' : ℕ
    pub d' : ℕ
    pub in_range : m < kp.n
    pub derived : derive_key_pair c kp info ≡ ok (e', d')
    pub checked : mod_exp (mod_exp m d' kp.n) e' kp.n ≡ m
    pub signed : sig ≡ fill_bytes (modulus_len kp.n) (mod_exp m d' kp.n)

  sign_checked-eq-ok :
      (kp : KeyPair) (m : ℕ) (exponents : ℕ × ℕ) (sig : Text)
      → sign_checked c kp m exponents ≡ ok sig
      → (mod_exp (mod_exp m exponents.1 kp.n) exponents.0 kp.n ≡ m)
        × (sig ≡ fill_bytes (modulus_len kp.n) (mod_exp m exponents.1 kp.n))
  unfolding sign_checked
  sign_checked-eq-ok kp m exponents sig e = ground (arith, e)

  below_modulus :
      (kp : KeyPair) (blinded info sig : Text)
      → blind_sign c kp blinded info ≡ ok sig
      → (to_int blinded < kp.n)
        × ((derive_key_pair c kp info >>= λ exponents. sign_checked c kp (to_int blinded) exponents)
            ≡ ok sig)
  unfolding blind_sign
  below_modulus kp blinded info sig e = elim (Bool-cases (leb kp.n (to_int blinded))) [
    | inl big ↦ absurd (ground (arith, big, e))
    | inr small ↦ (ground (arith, small), rw small at e)
  ]

  pub blind_sign-eq-ok :
      (kp : KeyPair) (blinded info sig : Text)
      → blind_sign c kp blinded info ≡ ok sig
      → IsSigned kp (to_int blinded) info sig
  blind_sign-eq-ok kp blinded info sig e =
      let (small, chain) = below_modulus kp blinded info sig e in
      let (exponents, derived, signed) = >>=-eq-ok (derive_key_pair c kp info) _ chain in
      let (checked, sig_lem) = sign_checked-eq-ok kp (to_int blinded) exponents sig signed in
      record {
        e' = exponents.0;
        d' = exponents.1;
        in_range = small;
        derived = derived;
        checked = checked;
        signed = sig_lem;
      }

  -- The private exponent goes with the public exponent of the same metadata.
  pub derive_key_pair-eq-ok :
      (kp : KeyPair) (info : Text) (e' d' : ℕ)
      → derive_key_pair c kp info ≡ ok (e', d')
      → (k : DerivedPublicKey) × (derive_public_key c (public_key kp) info ≡ ok k) × (k.e ≡ e')
  unfolding derive_key_pair
  derive_key_pair-eq-ok kp info e' d' h =
      let (k, derived, rest) = >>=-eq-ok (derive_public_key c (public_key kp) info) _ h in
      (k, derived, ground (arith, rest))

  -- What a successful `Blind` has computed.
  pub record IsBlinded (draws : Draws) (pk : PublicKey) (msg info : Text) (b : Blinded)
      : Type 0 where
    pub em : Text
    pub r : ℕ
    pub key : DerivedPublicKey
    pub encoding : pss_encode c draws.salt (build_msg_prime msg info) (bit_len pk.n - 1) ≡ ok em
    pub inverse : mod_inverse r pk.n ≡ some b.inv
    pub derived : derive_public_key c pk info ≡ ok key
    pub blinding :
        b.blinded_msg ≡ fill_bytes (modulus_len pk.n) (to_int em * mod_exp r key.e pk.n % pk.n)

  unwrap-eq-ok : (o : Option ℕ) (inv : ℕ) → unwrap o ≡ ok inv → o ≡ some inv
  unfolding unwrap
  unwrap-eq-ok none inv e = cc
  unwrap-eq-ok (some x) inv e = cc

  pub blind-eq-ok :
      (draws : Draws) (pk : PublicKey) (msg info : Text) (random_blind : Option ℕ) (b : Blinded)
      → blind c draws pk msg info random_blind ≡ ok b
      → IsBlinded draws pk msg info b
  unfolding blind
  blind-eq-ok draws pk msg info random_blind b e =
      let (em, encoding, e1) =
        >>=-eq-ok (pss_encode c draws.salt (build_msg_prime msg info) (bit_len pk.n - 1)) _ e in
      let (r, drawn, e2) = >>=-eq-ok (blinding_factor random_blind draws.factor) _ e1 in
      let (inv, inverse, e3) = >>=-eq-ok (unwrap (mod_inverse r pk.n)) _ e2 in
      let (key, derived, e4) = >>=-eq-ok (derive_public_key c pk info) _ e3 in
      let made = ok-injective e4 in
      record {
        em = em;
        r = r;
        key = key;
        encoding = encoding;
        inverse = unwrap-eq-ok _ inv inverse ∙ ap (λ (x : Blinded). some x.inv) made;
        derived = derived;
        blinding = sym (ap (λ (x : Blinded). x.blinded_msg) made);
      }
