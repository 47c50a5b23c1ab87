-- ===== src/Server/Honest.antt =====
-- The whole way of a token: a challenge solved, a nonce signed blindly, and the token redeemed.
use eu_trust_sdk.Base.{
  refl, ℕ, ◌≡◌, ap, subst, sym, ◌∙◌, arith, Option, some, none, codes, length, ◌++◌, Text, ◌≤◌,
}
use eu_trust_sdk.Base.Base64
use eu_trust_sdk.Base.Base64.RoundTrip.{decode_std-encode}
use eu_trust_sdk.Base.Bytes.{IsBytes, fill_bytes-IsBytes}
use eu_trust_sdk.Crypto.{Crypto, IsCrypto}
use eu_trust_sdk.Environment.{Float64}
use eu_trust_sdk.Api.Metadata.{time_bucket_from_time}
use eu_trust_sdk.Api.Metadata.RoundTrip.{IsMetadata}
use eu_trust_sdk.Challenge.Error as Failure
use eu_trust_sdk.Challenge.Composite
use eu_trust_sdk.Rsa.Error.{ok}
use eu_trust_sdk.Rsa.Keys.{KeyPair, public_key, modulus_len}
use eu_trust_sdk.Rsa.Protocol.{Blinded, Draws, blind, finalize}
use eu_trust_sdk.Rsa.Protocol.Correct.{IsSalt}
use eu_trust_sdk.Rsa.Protocol.Correct.Runs.{blind-eq-ok}
use eu_trust_sdk.Rsa.Generate.Safe.{IsSafeKey}
use eu_trust_sdk.Rsa.Generate.Completes.{blind-completes}
use eu_trust_sdk.Server.{Server, ChallengeEntry, HttpRequest, json, test_site_key}
use eu_trust_sdk.Server.Issue.{
  VerifyRequest, VerifyResponse, predicted, answer, validator, handle_verify,
}
use eu_trust_sdk.Server.Issue.Signs.{handle_verify_iff}
use eu_trust_sdk.Server.Redeem.{accepted}
use eu_trust_sdk.Server.Redeem.Accepts.{siteverify, spend}
use eu_trust_sdk.Server.Redeem.Finalized.{siteverify-finalized}
use eu_trust_sdk.Server.Calls.Entries.{IsEntry}

predicted-IsMetadata : (bucket time : ℕ) → bucket ≤ 3 → IsMetadata (predicted bucket time)
unfolding time_bucket_from_time
predicted-IsMetadata bucket time small = record {
  class = omega arith;
  temperature = omega arith;
  device = omega arith;
  time = omega arith;
}

whole_bytes : (kp : KeyPair) → IsSafeKey 2048 kp → modulus_len kp.n ≡ 256
unfolding modulus_len
whole_bytes kp safe = omega (arith, safe.size)

blinded-IsBytes :
    (c : Crypto) (kp : KeyPair) (nonce meta : Text) (draws : Draws) (random_blind : Option ℕ)
    (b : Blinded)
    → blind c draws (public_key kp) nonce meta random_blind ≡ ok b
    → IsBytes b.blinded_msg
blinded-IsBytes c kp nonce meta draws random_blind b e =
    let p = blind-eq-ok c draws (public_key kp) nonce meta random_blind b e in
    subst IsBytes (sym p.blinding) (fill_bytes-IsBytes _ _)

-- What an honest client has and does: a stored challenge, a response to it that passes, and a nonce of
-- 8 bytes blinded with the metadata that came with the challenge.
pub record IsHonest (c : Crypto) (kp : KeyPair) (validate_probe : Text → Text → ℕ) (s : Server)
    (now : ℕ) (req : VerifyRequest) (nonce : Text) (b : Blinded) : Type 0 where
  pub entry : ChallengeEntry
  pub stored : s.challenges req.challenge_id ≡ some entry
  pub made : IsEntry req.challenge_id entry
  pub verdict : ℕ × ℕ
  pub solved :
      Composite.verify c now entry.payload (answer req) (some validate_probe) ≡ Failure.ok verdict
  pub bytes : IsBytes nonce
  pub eight : length nonce ≡ 8
  pub draws : Draws
  pub salted : IsSalt draws.salt
  pub random_blind : Option ℕ
  pub blinds : blind c draws (public_key kp) nonce entry.predicted_meta random_blind ≡ ok b
  pub sent : req.blinded_msg ≡ Base64.encode b.blinded_msg

-- With a key of two safe primes and 2048 bits, an honest client's POST to `/verify` gets a blind
-- signature, `Finalize` makes a signature of it, and the token of this with the metadata and the nonce
-- is accepted by `/siteverify` in any state in which the nonce is not spent, with class 2 and the
-- bucket of the challenge.
pub honest_token :
    (c : Crypto) (kp : KeyPair) (parse_float : Text → Option Float64) (reputation : Text → ℕ)
    (s t : Server) (now later now' : ℕ) (r : HttpRequest) (req : VerifyRequest) (nonce : Text)
    (b : Blinded)
    → IsCrypto c
    → IsSafeKey 2048 kp
    → r.method ≡ codes "POST"
    → (h : IsHonest c kp (validator c kp parse_float reputation) s now req nonce b)
    → t.tokens (Base64.encode nonce) ≡ none
    → (blind_sig : Text) × (sig : Text) × ((handle_verify c kp parse_float reputation now later r
          (some req)
          s).0
        ≡ json (record {
          blind_signature = Base64.encode blind_sig;
          metadata = Base64.encode h.entry.predicted_meta;
        }))
      × (finalize c (public_key kp) nonce h.entry.predicted_meta blind_sig b.inv ≡ ok sig)
      × (siteverify c kp now'
            (record {
              token = Base64.encode (sig ++ (h.entry.predicted_meta ++ nonce));
              secret = test_site_key;
            })
            t
          ≡ (
            accepted (predicted h.made.bucket h.made.time),
            spend c kp now' (sig ++ (h.entry.predicted_meta ++ nonce)) t,
          ))
honest_token c kp parse_float reputation s t now later now' r req nonce b laws safe post h fresh =
    let meta = predicted h.made.bucket h.made.time in
    let (blind_sig, sig, signs, finalizes, _) =
      blind-completes c 2048 kp nonce h.entry.predicted_meta h.draws h.random_blind b laws safe refl
        h.salted h.blinds in
    let reply : VerifyResponse = record {
      blind_signature = Base64.encode blind_sig;
      metadata = Base64.encode h.entry.predicted_meta;
    } in
    (
      blind_sig,
      sig,
      (handle_verify_iff c kp parse_float reputation now later r req s reply post).1 (record {
        entry = h.entry;
        found = h.stored;
        verdict = h.verdict;
        passed = h.solved;
        msg = b.blinded_msg;
        decoded =
            ap Base64.decode h.sent
            ∙ decode_std-encode b.blinded_msg (
                blinded-IsBytes c kp nonce h.entry.predicted_meta h.draws h.random_blind b
                  h.blinds);
        sig = blind_sig;
        signed = signs;
        reply = refl;
      }),
      finalizes,
      subst
          (λ (m : Text).
            siteverify c kp now'
              (record { token = Base64.encode (sig ++ (m ++ nonce)); secret = test_site_key }) t
            ≡ (accepted meta, spend c kp now' (sig ++ (m ++ nonce)) t))
          (sym h.made.meta)
          (siteverify-finalized c kp now' t nonce blind_sig sig b.inv meta
            (predicted-IsMetadata h.made.bucket h.made.time h.made.in_table) h.bytes h.eight
            (whole_bytes kp safe)
            (subst (λ (m : Text). finalize c (public_key kp) nonce m blind_sig b.inv ≡ ok sig)
              h.made.meta finalizes)
            fresh),
    )
