-- ===== src/Rsa/Pss/RoundTrip.antt =====
-- `pssVerify` accepts what `pssEncode` makes, and what that is as a number.
use native.Mathlib.Numerals.{add-one}
use mathlib.Core.List.{append_assoc}
use eu_trust_sdk.Base.{
  ℕ, ◌+◌, ◌-◌, ◌*◌, ◌/◌, ◌≤◌, ◌<◌, ◌≡◌, ap, sym, subst, ◌∙◌, false, [], ◌∷◌, ◌++◌, arith, length,
  length-append, length-replicate, take-append_length, drop-append_length, take, drop, get_or,
  replicate, ==_refl, ltb, text_eq_refl, Text,
}
use eu_trust_sdk.Base.Bytes.{IsBytes}
use eu_trust_sdk.Crypto.{Crypto, IsCrypto}
use eu_trust_sdk.Rsa.Error.{ok}
use eu_trust_sdk.Rsa.Pss.{
  hash_len, salt_len, xor_bytes, clear_top, top_is_set, mgf1_sha384, salted_hash, check_db,
  pss_verify,
}
use eu_trust_sdk.Rsa.Pss.Masks.{
  length-clear_top, top_is_set-clear_top, unmask, length-xor_bytes, xor_bytes-IsBytes,
  length-mgf1_sha384, mgf1_sha384-IsBytes,
}
use eu_trust_sdk.Rsa.Pss.Padding.{
  get_or-append_last, padding-IsBytes, starts_with_zeros-replicate, get_or-replicate,
  drop-replicate, first_bit,
}

module _ (c : Crypto) (h : IsCrypto c) (msg salt : Text) (em_bits : ℕ) where
  abbrev pub em_len : ℕ
  em_len = (em_bits + 7) / 8

  abbrev pub db_len : ℕ
  db_len = em_len - hash_len - 1

  abbrev pub ps_len : ℕ
  ps_len = db_len - salt_len - 1

  abbrev pub top_bits : ℕ
  top_bits = 8 * em_len - em_bits

  abbrev pub hashed : Text
  hashed = salted_hash c msg salt

  abbrev pub db : Text
  db = replicate ps_len 0 ++ 1 ∷ salt

  abbrev pub masked : Text
  masked = clear_top top_bits (xor_bytes db (mgf1_sha384 c hashed db_len))

  abbrev pub encoded : Text
  encoded = masked ++ (hashed ++ 0xbc ∷ [])

  check_db_lem : check_db c msg hashed db ps_len ≡ ok tt
  unfolding check_db
  check_db_lem = rw (
    starts_with_zeros-replicate ps_len (1 ∷ salt),
    get_or-replicate ps_len 1 salt,
    add-one,
    drop-replicate ps_len 1 salt,
    text_eq_refl (salted_hash c msg salt),
  )

  module _ (long : 98 ≤ em_len) (salt_length : length salt ≡ 48) where
    pub top_bits-lt : top_bits < 8
    top_bits-lt = omega arith

    pub length-db : length db ≡ db_len
    length-db = omega (
      arith,
      length-append (replicate ps_len 0) (1 ∷ salt),
      length-replicate {A = ℕ} ps_len 0,
      salt_length,
    )

    -- DB and its mask, with the first byte of DB apart.
    unmask_db : clear_top top_bits (xor_bytes masked (mgf1_sha384 c hashed db_len)) ≡ db
    unmask_db =
        let (d, rest, e, small) = first_bit ps_len salt in
        let mask = mgf1_sha384 c hashed db_len in
        subst (λ x. clear_top top_bits (xor_bytes (clear_top top_bits (xor_bytes x mask)) mask) ≡ x)
          (sym e)
          (unmask top_bits d rest mask top_bits-lt small (mgf1_sha384-IsBytes c h hashed db_len)
            (sym (ap (length {A = ℕ}) e) ∙ length-db ∙ sym (length-mgf1_sha384 c h hashed db_len)))

    pub length-masked : length masked ≡ db_len
    length-masked =
        length-clear_top top_bits (xor_bytes db (mgf1_sha384 c hashed db_len))
        ∙ length-xor_bytes db (mgf1_sha384 c hashed db_len)
        ∙ length-db

    pub length-hashed : length hashed ≡ 48
    unfolding salted_hash
    length-hashed = h.sha384_length _

    pub length-encoded : length encoded ≡ em_len
    length-encoded = omega (
      arith,
      length-append masked (hashed ++ 0xbc ∷ []),
      length-append hashed (0xbc ∷ []),
      length-masked,
      length-hashed,
    )

    take-encoded : take db_len encoded ≡ masked
    take-encoded = subst (λ n. take n encoded ≡ masked) length-masked (take-append_length masked _)

    drop-encoded : drop db_len encoded ≡ hashed ++ 0xbc ∷ []
    drop-encoded =
        subst (λ n. drop n encoded ≡ hashed ++ 0xbc ∷ []) length-masked
          (drop-append_length masked _)

    take-hashed : take hash_len (hashed ++ 0xbc ∷ []) ≡ hashed
    take-hashed =
        subst (λ n. take n (hashed ++ 0xbc ∷ []) ≡ hashed) length-hashed
          (take-append_length hashed _)

    last-encoded : get_or encoded (em_len - 1) 0 ≡ 0xbc
    last-encoded =
        let e : em_len - 1 ≡ length (masked ++ hashed) =
          omega (arith, length-append masked hashed, length-masked, length-hashed) in
        rw (← append_assoc masked hashed (0xbc ∷ [])) (
          subst (λ n. get_or ((masked ++ hashed) ++ 0xbc ∷ []) n 0 ≡ 0xbc) (sym e)
            (get_or-append_last (masked ++ hashed) 0xbc))

    module _ (salt_bytes : IsBytes salt) where
      pub unmasked-IsBytes : IsBytes (xor_bytes db (mgf1_sha384 c hashed db_len))
      unmasked-IsBytes =
          xor_bytes-IsBytes db _ (padding-IsBytes ps_len salt salt_bytes)
            (mgf1_sha384-IsBytes c h hashed db_len)

      top_clear : top_is_set top_bits masked ≡ false
      top_clear = top_is_set-clear_top top_bits _ top_bits-lt unmasked-IsBytes

      pub pss_verify-encoded : pss_verify c msg encoded em_bits ≡ ok tt
      unfolding pss_verify
      pss_verify-encoded =
          let enough : ltb em_len (hash_len + salt_len + 2) ≡ false = ground arith in
          rw (length-encoded, take-encoded, drop-encoded, take-hashed, last-encoded, ==_refl em_len)
            (rw (enough, top_clear, unmask_db, check_db_lem))
