-- ===== src/Challenge/Composite/Honest.antt =====
-- A challenge from `New`, solved.
use eu_trust_sdk.Base.{
  ℕ, ◌+◌, ◌*◌, ◌^◌, ◌≤◌, ◌<◌, ◌≡◌, ◌≢◌, refl, arith, Option, some, [], ◌∷◌, ◌++◌, codes, length,
  inr, Text,
}
use eu_trust_sdk.Base.Bytes.{IsBytes, to_int}
use eu_trust_sdk.Base.Hex
use eu_trust_sdk.Base.Hex.{decode-encode}
use eu_trust_sdk.Crypto.{Crypto, IsCrypto}
use eu_trust_sdk.Challenge.Error.{ok}
use eu_trust_sdk.Challenge.Params.{ChallengeParams}
use eu_trust_sdk.Challenge.HashCash.{HashCashChallenge, new_hash_cash_challenge}
use eu_trust_sdk.Challenge.HashCash.Accepts.{verify_hash_cash_iff}
use eu_trust_sdk.Challenge.Argon2.{Argon2Challenge, new_argon2_challenge}
use eu_trust_sdk.Challenge.Argon2.Accepts.{verify_argon2_iff}
use eu_trust_sdk.Challenge.Composite.{
  ChallengePayload, ChallengeResponse, ProbeValidator, new, probe_names, probe_score, verify,
}
use eu_trust_sdk.Challenge.Composite.Accepts.{verify_iff}

abbrev pub offered : ChallengeParams → Text → Text → Text → ℕ → ChallengePayload
offered params id hash_nonce argon2_nonce now = record {
  challenge_id = id;
  hash_cash =
      some (record { nonce = Hex.encode hash_nonce; difficulty_bits = params.hash_cash_bits });
  argon2 = some (record {
    nonce = Hex.encode argon2_nonce;
    memory = params.argon2_memory;
    iterations = params.argon2_iterations;
    parallelism = 1;
    key_length = 32;
  });
  probes = probe_names params.probe_indices;
  expires_at = now + 120 * 10 ^ 9;
}

pub new-ok :
    (params : ChallengeParams) (id hash_nonce argon2_nonce : Text) (now : ℕ)
    → new params id (some hash_nonce) (some argon2_nonce) now
      ≡ ok (offered params id hash_nonce argon2_nonce now)
unfolding new new_hash_cash_challenge new_argon2_challenge
new-ok params id hash_nonce argon2_nonce now = refl

encode-some : (bs : Text) → 0 < length bs → Hex.encode bs ≢ []
unfolding Hex.encode
encode-some [] h = absurd (omega arith)
encode-some (b ∷ bs) h = λ e. cc

module _ (c : Crypto) (laws : IsCrypto c) where
  -- What the client is to send for the memory-hard puzzle.
  abbrev pub argon2_answer : ChallengeParams → Text → Text
  argon2_answer params nonce =
      c.argon2_id (codes "sovereign-trust-challenge") nonce params.argon2_iterations
        params.argon2_memory 1 32

  -- `New` succeeds where the random bytes can be read, and until 120 seconds later `Verify` returns
  -- class 2 for the response that names the challenge, gives the hex text of eight bytes whose digest
  -- with the first nonce lies below 2 ^ (256 - d), for d bits of at most 256, and the hex text of
  -- what Argon2 makes of the second nonce.
  pub verify-new :
      (params : ChallengeParams) (id hash_nonce argon2_nonce sol : Text) (now later k : ℕ)
      (resp : ChallengeResponse) (v : Option ProbeValidator)
      → IsBytes hash_nonce
      → IsBytes argon2_nonce
      → IsBytes sol
      → IsBytes (argon2_answer params argon2_nonce)
      → length sol ≡ 8
      → k + params.hash_cash_bits ≡ 256
      → to_int (c.sha256 (hash_nonce ++ sol)) < 2 ^ k
      → later ≤ now + 120 * 10 ^ 9
      → resp.challenge_id ≡ id
      → resp.hash_cash_solution ≡ Hex.encode sol
      → resp.argon2_result ≡ Hex.encode (argon2_answer params argon2_nonce)
      → (payload : ChallengePayload) × (new params id (some hash_nonce) (some argon2_nonce) now
          ≡ ok payload)
        × (verify c later payload resp v ≡ ok (2, probe_score payload.probes resp.probe_results v))
  verify-new params id hash_nonce argon2_nonce sol now later k resp v hb ab sb rb long bits small
        early named solved answered =
      let payload = offered params id hash_nonce argon2_nonce now in
      let hash : HashCashChallenge = record {
        nonce = Hex.encode hash_nonce;
        difficulty_bits = params.hash_cash_bits;
      } in
      let mem : Argon2Challenge = record {
        nonce = Hex.encode argon2_nonce;
        memory = params.argon2_memory;
        iterations = params.argon2_iterations;
        parallelism = 1;
        key_length = 32;
      } in
      let first =
        (verify_hash_cash_iff c laws hash hash_nonce sol (Hex.encode sol) k
            (decode-encode hash_nonce hb) (decode-encode sol sb) bits).1
          (long, small) in
      let second =
        (verify_argon2_iff c laws mem argon2_nonce (Hex.encode (argon2_answer params argon2_nonce))
            (decode-encode argon2_nonce ab)).1
          (decode-encode _ rb) in
      let thirty_two =
        laws.argon2_length (codes "sovereign-trust-challenge") argon2_nonce params.argon2_iterations
          params.argon2_memory 1 32 in
      (
        payload,
        new-ok params id hash_nonce argon2_nonce now,
        (verify_iff c later payload resp v hash mem 2 _ refl refl).1 (
          early,
          named,
          rw solved (encode-some sol (omega (arith, long))),
          rw solved first,
          inr (rw answered (encode-some _ (omega (arith, thirty_two))), rw answered second, refl),
          refl,
        ),
      )
