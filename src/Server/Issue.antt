-- ===== src/Server/Issue.antt =====
-- `handleChallenge` and `handleVerify` of cmd/server/main.go.
pub mod Offers
pub mod Outcome
pub mod Spent
pub mod Signs
use eu_trust_sdk.Base.{
  ℕ, ◌+◌, ◌/◌, ◌^◌, Bool, not, Option, none, some, codes, ltb, text_eq, if◌then◌else◌, Text,
}
use eu_trust_sdk.Base.Map
use eu_trust_sdk.Base.Assoc.{Assoc}
use eu_trust_sdk.Base.Bytes.{fill_bytes}
use eu_trust_sdk.Base.Base64
use eu_trust_sdk.Crypto.{Crypto}
use eu_trust_sdk.Double
use eu_trust_sdk.Environment.{Float64, validate}
use eu_trust_sdk.Api.Metadata.{TrustMetadata, encode, time_bucket_from_time}
use eu_trust_sdk.Challenge.Error as Failure
use eu_trust_sdk.Challenge.Params.{ChallengeParams, generate_seed, derive_params}
use eu_trust_sdk.Challenge.Composite
use eu_trust_sdk.Challenge.Composite.{ChallengePayload, ChallengeResponse}
use eu_trust_sdk.Rsa.Error.{Error, Result, ok, err, panic}
use eu_trust_sdk.Rsa.Keys.{KeyPair, modulus_len}
use eu_trust_sdk.Rsa.Protocol.{blind_sign}
use eu_trust_sdk.Temperature.Scorer.{bucket_ranges}
use eu_trust_sdk.Temperature.Store.{Store, record_event, record_token_burn, score}
use eu_trust_sdk.Server.{
  Server, ChallengeEntry, HttpRequest, Reply, failed, json, aborted, extract_ip, is_empty,
  test_site_key, challenge_ttl,
}

-- The JSON object that `handleChallenge` writes, its base64 texts as written.
pub record ChallengeReply : Type 0 where
  pub payload : ChallengePayload
  pub n : Text
  pub e : ℕ
  pub predicted_metadata : Text

-- What the handler reads from crypto/rand: the errors of the first two reads are ignored.
pub record Randomness : Type 0 where
  pub nonce : Text
  pub id_bytes : Text
  pub hash_cash : Option Text
  pub argon2 : Option Text

pub record VerifyRequest : Type 0 where
  pub challenge_id : Text
  pub hash_cash : Text
  pub argon2_result : Text
  pub probe_results : Assoc Text
  pub blinded_msg : Text
  pub device_class : ℕ

pub record VerifyResponse : Type 0 where
  pub blind_signature : Text
  pub metadata : Text

abbrev pub predicted : ℕ → ℕ → TrustMetadata
predicted bucket now = record {
  challenge_class = 2;
  temperature_bucket = bucket;
  device_class = 1;
  time_bucket = time_bucket_from_time now;
}

abbrev pub answer : VerifyRequest → ChallengeResponse
answer req = record {
  challenge_id = req.challenge_id;
  hash_cash_solution = req.hash_cash;
  argon2_result = req.argon2_result;
  probe_results = req.probe_results;
}

-- The `sitekey` of the query, or the test key.
abbrev pub site_key_of : HttpRequest → Text
site_key_of r = if is_empty r.site_key then test_site_key else r.site_key

-- The reply to an error of `rsapbssa.BlindSign`.
abbrev pub unsigned : Error → Reply VerifyResponse
unsigned panic = aborted
unsigned _ = failed 500

module _ (c : Crypto) (kp : KeyPair) (parse_float : Text → Option Float64)
    (reputation : Text → ℕ) where
  -- The end of `handleChallenge`, for the payload that was made.
  unfoldable pub offer :
      (ℕ → ℕ) → Text → ℕ → ChallengePayload → Server → Reply ChallengeReply × Server
  offer clock challenge_id bucket payload s =
      let meta = encode (predicted bucket (clock 4)) in
      (
        json (record {
          payload = payload;
          n = Base64.encode (fill_bytes (modulus_len kp.n) kp.n);
          e = kp.e;
          predicted_metadata = Base64.encode meta;
        }),
        record s {
          challenges = Map.insert s.challenges challenge_id (record {
            payload = payload;
            predicted_meta = meta;
            expiry = clock 5 + challenge_ttl;
          });
        },
      )

  -- The part after the temperature is known.
  unfoldable pub challenge_for :
      (ℕ → ℕ) → Randomness → Text → ℕ → Server → Reply ChallengeReply × Server
  unfolding offer
  challenge_for clock random ip bucket s =
      let ts = fill_bytes 8 (clock 2 / 10 ^ 9) in
      let seed = generate_seed c.hmac_sha256 (codes "poc-server-secret") random.nonce ts ip in
      let challenge_id = Base64.url_encode random.id_bytes in
      elim (derive_params seed (bucket_ranges bucket)) [
        | none ↦ (aborted, s)
        | some params ↦
            elim (Composite.new params challenge_id random.hash_cash random.argon2 (clock 3)) [
              | Failure.err _ ↦ (failed 500, s)
              | Failure.ok payload ↦ offer clock challenge_id bucket payload s
            ]
      ]

  -- `clock i` is the reading that the `i`-th `time.Now()` of the call makes.
  unfoldable pub handle_challenge :
      (ℕ → ℕ) → Randomness → HttpRequest → Server → Reply ChallengeReply × Server
  unfolding challenge_for
  handle_challenge clock random r s =
      if not (text_eq r.method (codes "GET"))
      then (failed 405, s)
      else if is_empty r.site_key
      then (failed 400, s)
      else let ip = extract_ip r in
        let store = record_event (clock 0) ip none s.temp_store in
        let bucket = (score reputation (clock 1) ip r.site_key store).1 in
        challenge_for clock random ip bucket (record s { temp_store = store })

  -- The end of `handleVerify`: the signature over the metadata stored with the challenge.
  unfoldable pub sign : Text → Text → Text → Server → Reply VerifyResponse × Server
  sign blinded meta site_key s = elim (Base64.decode blinded) [
    | none ↦ (failed 400, s)
    | some msg ↦ elim (blind_sign c kp msg meta) [
      | err x ↦ (unsigned x, s)
      | ok sig ↦ (
        json (record { blind_signature = Base64.encode sig; metadata = Base64.encode meta }),
        record s { temp_store = record_token_burn site_key s.temp_store },
      )
    ]
  ]

  -- The validator that `handleVerify` passes.
  abbrev pub validator : Text → Text → ℕ
  validator name val = (validate parse_float name val).1

  -- `s.tempStore.Record(ip, siteKey, &probePass)`
  abbrev pub with_event : ℕ → HttpRequest → Bool → Server → Server
  with_event later r passed s = record s {
    temp_store = record_event later (extract_ip r) (some passed) s.temp_store;
  }

  -- The part after the challenge's entry was loaded and deleted.
  unfoldable pub judge_response :
      ℕ → ℕ → HttpRequest → VerifyRequest → ChallengeEntry → Server → Reply VerifyResponse × Server
  unfolding sign
  judge_response now later r req entry s =
      elim (Composite.verify c now entry.payload (answer req) (some validator)) [
        | Failure.err _ ↦ (failed 400, s)
        | Failure.ok verdict ↦
            sign req.blinded_msg entry.predicted_meta (site_key_of r)
              (with_event later r (ltb verdict.1 (Double.literal 5 10)) s)
      ]

  -- `none` is a body that is no JSON; the two times are those of `Verify` and of `Record`.
  unfoldable pub handle_verify :
      ℕ → ℕ → HttpRequest → Option VerifyRequest → Server → Reply VerifyResponse × Server
  unfolding judge_response
  handle_verify now later r body s =
      if not (text_eq r.method (codes "POST")) then (failed 405, s) else elim body [
        | none ↦ (failed 400, s)
        | some req ↦ elim (s.challenges req.challenge_id) [
          | none ↦ (failed 400, s)
          | some entry ↦
              judge_response now later r req entry
                (record s { challenges = Map.remove s.challenges req.challenge_id })
        ]
      ]
