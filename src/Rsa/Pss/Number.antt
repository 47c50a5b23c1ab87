-- ===== src/Rsa/Pss/Number.antt =====
-- An encoded message as a byte string and as a number.
use eu_trust_sdk.Base.{
  ℕ, ◌+◌, ◌-◌, ◌*◌, ◌/◌, ◌^◌, ◌≤◌, ◌<◌, ◌≡◌, refl, ap, sym, ◌∙◌, subst, false, Option, none, some,
  [], ◌∷◌, ◌++◌, arith, length, length-append, All-append, ltb, Bool-cases, inl, inr, Text, true,
}
use eu_trust_sdk.Base.Bytes.{IsBytes, to_int}
use eu_trust_sdk.Crypto.{Crypto, IsCrypto}
use eu_trust_sdk.Rsa.Arith.{pow-add, pow-bytes}
use eu_trust_sdk.Rsa.Error.{Result, ok, err, encoding_error}
use eu_trust_sdk.Rsa.Pss.{hash_len, salt_len, xor_bytes, mgf1_sha384, pss_encode, salted_hash}
use eu_trust_sdk.Rsa.Pss.Masks.{clear_top-IsBytes, clear_top-lt, length-xor_bytes}
use eu_trust_sdk.Rsa.Pss.RoundTrip.{
  db, db_len, top_bits, top_bits-lt, encoded, length-db, unmasked-IsBytes, length-hashed,
}

ok-injective : {x y : Text} → ok x ≡ ok y → x ≡ y
ok-injective e = ground (arith, e)

encoding_error-ne-ok : (x : Text) → ¬ (◌≡◌ {A = Result Text} (err encoding_error) (ok x))
encoding_error-ne-ok x e = cc

module _ (c : Crypto) (h : IsCrypto c) where
  module _ (salt msg : Text) (em_bits : ℕ) where
    refused :
        ltb ((em_bits + 7) / 8) (hash_len + salt_len + 2) ≡ true
        → pss_encode c (some salt) msg em_bits ≡ err encoding_error
    unfolding pss_encode
    refused short = rw short

    pub accepted :
        ltb ((em_bits + 7) / 8) (hash_len + salt_len + 2) ≡ false
        → pss_encode c (some salt) msg em_bits ≡ ok (encoded c h msg salt em_bits)
    unfolding pss_encode
    accepted long = rw long

  -- What a successful encoding returns, and under which conditions.
  pub pss_encode-eq-ok :
      (rng : Option Text) (msg : Text) (em_bits : ℕ) (em : Text)
      → pss_encode c rng msg em_bits ≡ ok em
      → (salt : Text) × (rng ≡ some salt)
        × (98 ≤ (em_bits + 7) / 8)
        × (em ≡ encoded c h msg salt em_bits)
  unfolding pss_encode
  pss_encode-eq-ok none msg em_bits em e = absurd (ground (arith, e))
  pss_encode-eq-ok (some salt) msg em_bits em e =
      elim (Bool-cases (ltb ((em_bits + 7) / 8) (hash_len + salt_len + 2))) [
        | inl short ↦ absurd (encoding_error-ne-ok em (sym (refused salt msg em_bits short) ∙ e))
        | inr long ↦ (
          salt,
          refl,
          ground (arith, long),
          ok-injective (sym e ∙ accepted salt msg em_bits long),
        )
      ]

module _ (c : Crypto) (h : IsCrypto c) (msg salt : Text) (em_bits : ℕ) where
  module _ (long : 98 ≤ (em_bits + 7) / 8) (salt_length : length salt ≡ 48)
      (salt_bytes : IsBytes salt) where
    tail-IsBytes : IsBytes (salted_hash c msg salt ++ 0xbc ∷ [])
    unfolding salted_hash
    tail-IsBytes = All-append _ (salted_hash c msg salt) _ (h.sha384_bytes _) (omega arith, tt)

    pub encoded-IsBytes : IsBytes (encoded c h msg salt em_bits)
    encoded-IsBytes =
        All-append _ _ _
          (clear_top-IsBytes _ _ (top_bits-lt c h msg salt em_bits long salt_length)
            (unmasked-IsBytes c h msg salt em_bits long salt_length salt_bytes))
          tail-IsBytes

    -- The encoded message has no more bits than were asked for.
    pub encoded-lt : to_int (encoded c h msg salt em_bits) < 2 ^ em_bits
    encoded-lt =
        let t = top_bits c h msg salt em_bits in
        let db' =
          xor_bytes (db c h msg salt em_bits)
            (mgf1_sha384 c (salted_hash c msg salt) (db_len c h msg salt em_bits)) in
        let rest = salted_hash c msg salt ++ 0xbc ∷ [] in
        let n = (em_bits + 7) / 8 - 1 in
        let db_length : length db' ≡ db_len c h msg salt em_bits =
          length-xor_bytes _ _ ∙ length-db c h msg salt em_bits long salt_length in
        let lengths : length db' + length rest - 1 ≡ n = omega (
          arith,
          db_length,
          length-append (salted_hash c msg salt) (0xbc ∷ []),
          length-hashed c h msg salt em_bits long salt_length,
        ) in
        let bits : 8 - t + 8 * n ≡ em_bits = omega arith in
        let size : 2 ^ (8 - t) * 256 ^ (length db' + length rest - 1) ≡ 2 ^ em_bits =
          ap (λ (k : ℕ). 2 ^ (8 - t) * 256 ^ k) lengths
          ∙ ap (λ (k : ℕ). 2 ^ (8 - t) * k) (pow-bytes n)
          ∙ sym (pow-add 2 (8 - t) (8 * n))
          ∙ ap (λ (k : ℕ). 2 ^ k) bits in
        subst (λ k. to_int (encoded c h msg salt em_bits) < k) size
          (clear_top-lt t db' rest (top_bits-lt c h msg salt em_bits long salt_length)
            (unmasked-IsBytes c h msg salt em_bits long salt_length salt_bytes) tail-IsBytes
            (omega (arith, db_length)))
