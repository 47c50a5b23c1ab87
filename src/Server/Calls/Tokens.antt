-- ===== src/Server/Calls/Tokens.antt =====
-- The handlers of `/challenge` and `/verify` leave the spent nonces alone.
use eu_trust_sdk.Base.{
  ℕ, ◌/◌, ◌^◌, ◌≡◌, refl, Option, codes, text_eq, Bool-cases, Option-cases, inl, inr, Text,
}
use eu_trust_sdk.Base.Bytes.{fill_bytes}
use eu_trust_sdk.Base.Base64
use eu_trust_sdk.Crypto.{Crypto}
use eu_trust_sdk.Environment.{Float64}
use eu_trust_sdk.Challenge.Error as Failure
use eu_trust_sdk.Challenge.Composite
use eu_trust_sdk.Challenge.Composite.{ChallengePayload}
use eu_trust_sdk.Challenge.Params.{generate_seed, derive_params}
use eu_trust_sdk.Rsa.Keys.{KeyPair}
use eu_trust_sdk.Temperature.Scorer.{bucket_ranges}
use eu_trust_sdk.Server.{Server, HttpRequest, is_empty}
use eu_trust_sdk.Server.Issue.Outcome.{verify-Outcome}
use eu_trust_sdk.Server.Issue.{
  Randomness, VerifyRequest, offer, challenge_for, handle_challenge, handle_verify,
}

module _ (c : Crypto) (kp : KeyPair) (parse_float : Text → Option Float64)
    (reputation : Text → ℕ) where
  offer-tokens :
      (clock : ℕ → ℕ) (id : Text) (bucket : ℕ) (payload : ChallengePayload) (s : Server)
      → (offer c kp parse_float reputation clock id bucket payload s).1.tokens ≡ s.tokens
  unfolding offer
  offer-tokens clock id bucket payload s = refl

  challenge_for-tokens :
      (clock : ℕ → ℕ) (random : Randomness) (ip : Text) (bucket : ℕ) (s : Server)
      → (challenge_for c kp parse_float reputation clock random ip bucket s).1.tokens ≡ s.tokens
  unfolding challenge_for
  challenge_for-tokens clock random ip bucket s =
      let ts = fill_bytes 8 (clock 2 / 10 ^ 9) in
      let seed = generate_seed c.hmac_sha256 (codes "poc-server-secret") random.nonce ts ip in
      elim (Option-cases (derive_params seed (bucket_ranges bucket))) [
        | inl panics ↦ rw (panics, challenge_for)
        | inr (params, derived) ↦
            elim (Failure.Result-cases (
              Composite.new params (Base64.url_encode random.id_bytes) random.hash_cash
                random.argon2 (clock 3))) [
                  | inr (x, failure) ↦ rw (derived, failure, challenge_for)
                  | inl (payload, made) ↦
                      rw (derived, made, challenge_for)
                        (offer-tokens clock (Base64.url_encode random.id_bytes) bucket payload s)
                ]
      ]

  pub challenge-tokens :
      (clock : ℕ → ℕ) (random : Randomness) (r : HttpRequest) (s : Server)
      → (handle_challenge c kp parse_float reputation clock random r s).1.tokens ≡ s.tokens
  unfolding handle_challenge
  challenge-tokens clock random r s = elim (Bool-cases (text_eq r.method (codes "GET"))) [
    | inr other ↦ rw (other, handle_challenge)
    | inl get ↦ elim (Bool-cases (is_empty r.site_key)) [
      | inl missing ↦ rw (get, missing, handle_challenge)
      | inr there ↦ rw (get, there, handle_challenge) (challenge_for-tokens clock random _ _ _)
    ]
  ]

  pub verify-tokens :
      (now later : ℕ) (r : HttpRequest) (body : Option VerifyRequest) (s : Server)
      → (handle_verify c kp parse_float reputation now later r body s).1.tokens ≡ s.tokens
  verify-tokens now later r body s =
      elim (verify-Outcome c kp parse_float reputation now later r body s) [
        | inl same ↦ rw same
        | inr (id, (store, gone)) ↦ rw gone
      ]
