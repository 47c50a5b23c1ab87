-- ===== src/Server/Issue/Offers.antt =====
-- What `handleChallenge` hands out.
use eu_trust_sdk.Base.{
  ℕ, ◌/◌, ◌^◌, ◌≤◌, ◌≡◌, refl, arith, false, true, Option, none, some, codes, Text, text_eq,
  text_eq_refl, length, ◌++◌,
}
use eu_trust_sdk.Base.Map.{insert_self}
use eu_trust_sdk.Base.Bytes.{fill_bytes}
use eu_trust_sdk.Base.Base64
use eu_trust_sdk.Crypto.{Crypto, IsCrypto}
use eu_trust_sdk.Environment.{Float64}
use eu_trust_sdk.Challenge.Error as Failure
use eu_trust_sdk.Challenge.Composite
use eu_trust_sdk.Challenge.Composite.{ChallengePayload}
use eu_trust_sdk.Challenge.Composite.Honest.{offered, new-ok}
use eu_trust_sdk.Challenge.Params.{ChallengeParams, generate_seed}
use eu_trust_sdk.Challenge.Params.Bounds.{IsWithin, derive_params-IsWithin}
use eu_trust_sdk.Rsa.Keys.{KeyPair}
use eu_trust_sdk.Temperature.Scorer.{bucket_ranges, bucket_ranges-IsRanges}
use eu_trust_sdk.Temperature.Store.{record_event, score}
use eu_trust_sdk.Server.{Server, Reply, ChallengeEntry, HttpRequest, json, is_empty, extract_ip}
use eu_trust_sdk.Server.Issue.{Randomness, ChallengeReply, offer, challenge_for, handle_challenge}
use eu_trust_sdk.Server.Calls.Entries.{score-bucket}

-- A reply with a challenge of one of the four buckets, made at the given time and stored, with the
-- metadata that the client is told of.
pub record IsOffer (random : Randomness) (now : ℕ) (result : Reply ChallengeReply × Server)
    : Type 0 where
  pub offer : ChallengeReply
  pub replied : result.0 ≡ json offer
  pub bucket : ℕ
  pub in_table : bucket ≤ 3
  pub params : ChallengeParams
  pub within : IsWithin (bucket_ranges bucket) params
  pub made :
      Composite.new params (Base64.url_encode random.id_bytes) random.hash_cash random.argon2 now
      ≡ Failure.ok offer.payload
  pub entry : ChallengeEntry
  pub stored : result.1.challenges (Base64.url_encode random.id_bytes) ≡ some entry
  pub same : entry.payload ≡ offer.payload
  pub told : offer.predicted_metadata ≡ Base64.encode entry.predicted_meta

module _ (c : Crypto) (kp : KeyPair) (parse_float : Text → Option Float64) (reputation : Text → ℕ)
    (laws : IsCrypto c) where
  offer-IsOffer :
      (clock : ℕ → ℕ) (random : Randomness) (bucket : ℕ) (params : ChallengeParams)
      (payload : ChallengePayload) (s : Server)
      → bucket ≤ 3
      → IsWithin (bucket_ranges bucket) params
      → Composite.new params
          (Base64.url_encode random.id_bytes)
          random.hash_cash
          random.argon2
          (clock 3)
        ≡ Failure.ok payload
      → (o : IsOffer random (clock 3) (
          offer c kp parse_float reputation clock
            (Base64.url_encode random.id_bytes)
            bucket
            payload
            s))
        × (o.bucket ≡ bucket)
  unfolding offer
  offer-IsOffer clock random bucket params payload s small within made = (
    record {
      offer = _;
      replied = refl;
      bucket = bucket;
      in_table = small;
      params = params;
      within = within;
      made = made;
      entry = _;
      stored = insert_self s.challenges (Base64.url_encode random.id_bytes) _;
      same = refl;
      told = refl;
    },
    refl,
  )

  challenge_for-IsOffer :
      (clock : ℕ → ℕ) (random : Randomness) (hash_nonce argon2_nonce ip : Text) (bucket : ℕ)
      (s : Server)
      → random.hash_cash ≡ some hash_nonce
      → random.argon2 ≡ some argon2_nonce
      → bucket ≤ 3
      → (o : IsOffer random
          (clock 3)
          (challenge_for c kp parse_float reputation clock random ip bucket s))
        × (o.bucket ≡ bucket)
  unfolding challenge_for generate_seed
  challenge_for-IsOffer clock random hash_nonce argon2_nonce ip bucket s h a small =
      let ts = fill_bytes 8 (clock 2 / 10 ^ 9) in
      let id = Base64.url_encode random.id_bytes in
      let message = random.nonce ++ ts ++ ip in
      let long : length (c.hmac_sha256 (codes "poc-server-secret") message) ≡ 32 =
        laws.hmac_length (codes "poc-server-secret") message in
      let (params, derived, within, _, _, _) =
        derive_params-IsWithin
          (generate_seed c.hmac_sha256 (codes "poc-server-secret") random.nonce ts ip)
          (bucket_ranges bucket) (bucket_ranges-IsRanges bucket) (omega (arith, long)) in
      let made : Composite.new params id random.hash_cash random.argon2 (clock 3)
          ≡ Failure.ok (offered params id hash_nonce argon2_nonce (clock 3)) =
        rw (h, a) (new-ok params id hash_nonce argon2_nonce (clock 3)) in
      rw (derived, made, challenge_for)
        (offer-IsOffer clock random bucket params _ s small within made)

  -- Where the random bytes can be read, a GET to `/challenge` with a site key is never refused and
  -- never panics: it gets a challenge of the bucket in which `Score` puts the client's address and
  -- site key once this request is recorded, one of four, with parameters inside the bucket's
  -- ranges, which is stored under its name with the metadata that the client is told of.
  pub handle_challenge_total :
      (clock : ℕ → ℕ) (random : Randomness) (hash_nonce argon2_nonce : Text) (r : HttpRequest)
      (s : Server)
      → random.hash_cash ≡ some hash_nonce
      → random.argon2 ≡ some argon2_nonce
      → r.method ≡ codes "GET"
      → is_empty r.site_key ≡ false
      → (o : IsOffer random
          (clock 3)
          (handle_challenge c kp parse_float reputation clock random r s))
        × (o.bucket
            ≡ (score reputation
                (clock 1)
                (extract_ip r)
                r.site_key
                (record_event (clock 0) (extract_ip r) none s.temp_store)).1)
  unfolding handle_challenge
  handle_challenge_total clock random hash_nonce argon2_nonce r s h a get there =
      let asked : text_eq r.method (codes "GET") ≡ true = rw get (text_eq_refl (codes "GET")) in
      let ip = extract_ip r in
      let store = record_event (clock 0) ip none s.temp_store in
      rw (asked, there, handle_challenge)
        (challenge_for-IsOffer clock random hash_nonce argon2_nonce ip
          (score reputation (clock 1) ip r.site_key store).1 (record s { temp_store = store }) h a
          (score-bucket reputation (clock 1) ip r.site_key store))
