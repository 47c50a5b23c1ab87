-- ===== src/Server/Redeem/Finalized.antt =====
-- From the client's final signature to an accepted token.
use mathlib.Core.List.{append_assoc}
use eu_trust_sdk.Base.{
  ℕ, ◌*◌, ◌%◌, false, ◌≢◌, ◌==◌, Bool-cases, inl, inr, take-append_length, drop-append_length,
  length-append, All-append, ◌≡◌, arith, refl, sym, true, none, ◌++◌, take, drop, length, Text, ◌∙◌,
  ◌<◌,
}
use eu_trust_sdk.Base.Bytes.{IsBytes, to_int, fill_bytes, length-fill_bytes, fill_bytes-IsBytes}
use eu_trust_sdk.Base.Base64
use eu_trust_sdk.Base.Base64.RoundTrip.{decode_std-encode}
use eu_trust_sdk.Crypto.{Crypto}
use eu_trust_sdk.Rsa.Error.{
  Result, ok, err, ok-injective, Error, encoding_error, blinding_error, invalid_input,
  signing_failure, invalid_sig, not_coprime, read_error, panic,
}
use eu_trust_sdk.Rsa.Keys.{KeyPair, public_key, modulus_len}
use eu_trust_sdk.Rsa.Protocol
use eu_trust_sdk.Api.Metadata.{TrustMetadata, encode}
use eu_trust_sdk.Api.Metadata.RoundTrip.{
  IsMetadata, decode_metadata-encode, length-encode, encode-IsBytes,
}
use eu_trust_sdk.Server.{Server, test_site_key}
use eu_trust_sdk.Server.Redeem.{accepted, sig_of, meta_of, nonce_of}
use eu_trust_sdk.Server.Redeem.Accepts.{
  spend, IsRequest, siteverify, siteverify-redeem, redeem-spendable,
}

or_invalid-refuses :
    (c : Crypto) (sig out : Text) (x : Error) → Protocol.or_invalid c sig (err x) ≢ ok out
unfolding Protocol.or_invalid
or_invalid-refuses c sig out encoding_error e = cc
or_invalid-refuses c sig out blinding_error e = cc
or_invalid-refuses c sig out invalid_input e = cc
or_invalid-refuses c sig out signing_failure e = cc
or_invalid-refuses c sig out invalid_sig e = cc
or_invalid-refuses c sig out not_coprime e = cc
or_invalid-refuses c sig out read_error e = cc
or_invalid-refuses c sig out panic e = cc

or_invalid-ok :
    (c : Crypto) (sig out : Text) (r : Result (Unit {0}))
    → Protocol.or_invalid c sig r ≡ ok out
    → (r ≡ ok tt) × (sig ≡ out)
unfolding Protocol.or_invalid
or_invalid-ok c sig out (ok tt) e = (refl, ok-injective e)
or_invalid-ok c sig out (err x) e = absurd (or_invalid-refuses c sig out x e)

-- The three parts of a token, joined and taken apart.
take-three : (a b d : Text) → length a ≡ 256 → take 256 (a ++ (b ++ d)) ≡ a
take-three a b d e = rw (sym e) (take-append_length a (b ++ d))

drop-three : (a b d : Text) → length a ≡ 256 → drop 256 (a ++ (b ++ d)) ≡ b ++ d
drop-three a b d e = rw (sym e) (drop-append_length a (b ++ d))

module _ (c : Crypto) (kp : KeyPair) where
  -- `Finalize` only returns a signature that verifies, of the length of the modulus.
  wrong_length :
      (msg info blind_sig sig : Text) (inv : ℕ)
      → (length blind_sig == modulus_len kp.n) ≡ false
      → Protocol.finalize c (public_key kp) msg info blind_sig inv ≢ ok sig
  unfolding Protocol.finalize
  wrong_length msg info blind_sig sig inv other = rw (other, Protocol.finalize) (λ e. cc)

  right_length :
      (msg info blind_sig sig : Text) (inv : ℕ)
      → (length blind_sig == modulus_len kp.n) ≡ true
      → Protocol.finalize c (public_key kp) msg info blind_sig inv ≡ ok sig
      → Protocol.or_invalid c (fill_bytes (modulus_len kp.n) (to_int blind_sig * inv % kp.n)) (
          Protocol.verify c
            (public_key kp)
            msg
            info
            (fill_bytes (modulus_len kp.n) (to_int blind_sig * inv % kp.n)))
        ≡ ok sig
  unfolding Protocol.finalize
  right_length msg info blind_sig sig inv same = rw (same, Protocol.finalize) (λ e. e)

  finalize-verified :
      (msg info blind_sig sig : Text) (inv : ℕ)
      → Protocol.finalize c (public_key kp) msg info blind_sig inv ≡ ok sig
      → (Protocol.verify c (public_key kp) msg info sig ≡ ok tt)
        × (length sig ≡ modulus_len kp.n)
        × IsBytes sig
  finalize-verified msg info blind_sig sig inv e =
      elim (Bool-cases (length blind_sig == modulus_len kp.n)) [
        | inr other ↦ absurd (wrong_length msg info blind_sig sig inv other e)
        | inl same ↦
            let x = to_int blind_sig * inv % kp.n in
            let built = fill_bytes (modulus_len kp.n) x in
            let (good, equal) =
              or_invalid-ok c built sig (Protocol.verify c (public_key kp) msg info built)
                (right_length msg info blind_sig sig inv same e) in
            rw (sym equal) (
              good,
              length-fill_bytes (modulus_len kp.n) x,
              fill_bytes-IsBytes (modulus_len kp.n) x,
            )
      ]

  joined :
      (sig meta nonce : Text)
      → length sig ≡ 256
      → length meta ≡ 7
      → (sig_of (sig ++ (meta ++ nonce)) ≡ sig)
        × (meta_of (sig ++ (meta ++ nonce)) ≡ meta)
        × (nonce_of (sig ++ (meta ++ nonce)) ≡ nonce)
  joined sig meta nonce es em = (
    take-three sig meta nonce es,
    rw (drop-three sig meta nonce es, sym em) (take-append_length meta nonce),
    let size : length (sig ++ meta) ≡ 263 = omega (arith, length-append sig meta) in
        rw (sym (append_assoc sig meta nonce), sym size) (drop-append_length (sig ++ meta) nonce),
  )

  -- Where the client's `Finalize` returns a signature of 256 bytes over a nonce of 8 bytes and the
  -- encoding of some metadata, the base64 text of the signature, the metadata and the nonce, sent
  -- with the site's secret, is accepted as long as the nonce has no entry among the spent ones: the
  -- reply carries the metadata's class and temperature, and the nonce is spent for 300 seconds.
  pub siteverify-finalized :
      (now : ℕ) (s : Server) (nonce blind_sig sig : Text) (inv : ℕ) (meta : TrustMetadata)
      → IsMetadata meta
      → IsBytes nonce
      → length nonce ≡ 8
      → modulus_len kp.n ≡ 256
      → Protocol.finalize c (public_key kp) nonce (encode meta) blind_sig inv ≡ ok sig
      → s.tokens (Base64.encode nonce) ≡ none
      → let token = sig ++ (encode meta ++ nonce) in
        siteverify c kp now (record { token = Base64.encode token; secret = test_site_key }) s
        ≡ (accepted meta, spend c kp now token s)
  siteverify-finalized now s nonce blind_sig sig inv meta hm hb hn size e fresh =
      let token = sig ++ (encode meta ++ nonce) in
      let (good, long, bytes) = finalize-verified nonce (encode meta) blind_sig sig inv e in
      let (a, b, d) = joined sig (encode meta) nonce (long ∙ size) (length-encode meta) in
      let well : IsRequest c kp (record { token = Base64.encode token; secret = test_site_key })
          token =
        record {
          right_secret = refl;
          decoded = decode_std-encode token (
              All-append (λ b. b < 256) sig (encode meta ++ nonce) bytes
                (All-append (λ b. b < 256) (encode meta) nonce (encode-IsBytes meta hm) hb));
          long = omega (
            arith,
            length-append sig (encode meta ++ nonce),
            length-append (encode meta) nonce,
            length-encode meta,
            long,
            size,
            hn,
          );
        } in
      siteverify-redeem c kp now _ token s well
      ∙ redeem-spendable c kp now token meta s (record {
        fresh = rw d fresh;
        named = rw b (decode_metadata-encode meta hm);
        signed = rw (a, b, d) good;
      })
