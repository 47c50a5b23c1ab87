-- ===== src/Server/Redeem.antt =====
-- `handleSiteverify` of cmd/server/main.go.
pub mod Accepts
pub mod Outcome
pub mod Again
pub mod Finalized
use eu_trust_sdk.Base.{
  ℕ, ◌+◌, ◌*◌, ◌%◌, ◌^◌, Bool, true, false, not, Option, none, some, List, [], ◌∷◌, codes, length,
  take, drop, ◌==◌, text_eq, if◌then◌else◌, Text,
}
use eu_trust_sdk.Base.Map
use eu_trust_sdk.Base.Base64
use eu_trust_sdk.Crypto.{Crypto}
use eu_trust_sdk.Api.Metadata.{TrustMetadata, decode_metadata}
use eu_trust_sdk.Rsa.Error.{Error, Result, ok, err, panic}
use eu_trust_sdk.Rsa.Keys.{KeyPair, public_key}
use eu_trust_sdk.Rsa.Protocol
use eu_trust_sdk.Server.{
  Server, Reply, failed, json, aborted, test_site_key, sig_len, meta_len, token_len, token_ttl,
}

pub record SiteVerifyRequest : Type 0 where
  pub token : Text
  pub secret : Text

-- What the body holds: the two values of a form, or a JSON text, where `none` is a decoding error.
pub data Body : Type 0 where
  form : Text → Text → Body
  json_text : Option SiteVerifyRequest → Body

-- Without the `Hostname`, which the handler never sets.
pub record SiteVerifyResponse : Type 0 where
  pub success : Bool
  -- The number that the decimal text shows; an omitted text is 0.
  pub timestamp : ℕ
  pub challenge_class : ℕ
  pub temperature_bucket : ℕ
  pub error_codes : List Text

-- `writeVerifyError`
abbrev pub verify_error : Text → Reply SiteVerifyResponse
verify_error code = json (record {
  success = false;
  timestamp = 0;
  challenge_class = 0;
  temperature_bucket = 0;
  error_codes = code ∷ [];
})

abbrev pub invalid_secret : Reply SiteVerifyResponse
invalid_secret = verify_error (codes "invalid-input-secret")

abbrev pub invalid_response : Reply SiteVerifyResponse
invalid_response = verify_error (codes "invalid-input-response")

abbrev pub duplicate : Reply SiteVerifyResponse
duplicate = verify_error (codes "timeout-or-duplicate")

abbrev pub accepted : TrustMetadata → Reply SiteVerifyResponse
accepted meta = json (record {
  success = true;
  timestamp = meta.time_bucket * 3600 % 2 ^ 32;
  challenge_class = meta.challenge_class;
  temperature_bucket = meta.temperature_bucket;
  error_codes = [];
})

unfoldable pub read_body : Body → Option SiteVerifyRequest
read_body (form token secret) = some (record { token = token; secret = secret })
read_body (json_text req) = req

-- The three parts of a token.
abbrev pub sig_of : Text → Text
sig_of token = take sig_len token

abbrev pub meta_of : Text → Text
meta_of token = take meta_len (drop sig_len token)

abbrev pub nonce_of : Text → Text
nonce_of token = drop (sig_len + meta_len) token

abbrev pub nonce_key : Text → Text
nonce_key token = Base64.encode (nonce_of token)

-- The reply to an error of `rsapbssa.Verify`.
abbrev pub refusal : Error → Reply SiteVerifyResponse
refusal panic = aborted
refusal _ = invalid_response

module _ (c : Crypto) (kp : KeyPair) where
  -- The end of the handler, for the metadata that was decoded.
  unfoldable pub check_signature :
      ℕ → Text → TrustMetadata → Server → Reply SiteVerifyResponse × Server
  check_signature now token meta s =
      elim (Protocol.verify c (public_key kp) (nonce_of token) (meta_of token) (sig_of token)) [
        | err x ↦ (refusal x, s)
        | ok _ ↦ (
          accepted meta,
          record s {
            tokens = Map.insert s.tokens (nonce_key token) (record { expiry = now + token_ttl });
          },
        )
      ]

  -- The part after the token's bytes are there.
  unfoldable pub redeem : ℕ → Text → Server → Reply SiteVerifyResponse × Server
  unfolding check_signature
  redeem now token s = elim (s.tokens (nonce_key token)) [
    | some _ ↦ (duplicate, s)
    | none ↦ elim (decode_metadata (meta_of token)) [
      | none ↦ (invalid_response, s)
      | some meta ↦ check_signature now token meta s
    ]
  ]

  unfoldable pub handle_siteverify : ℕ → Text → Body → Server → Reply SiteVerifyResponse × Server
  unfolding read_body redeem
  handle_siteverify now method body s =
      if not (text_eq method (codes "POST")) then (failed 405, s) else elim (read_body body) [
        | none ↦ (failed 400, s)
        | some req ↦
            if not (text_eq req.secret test_site_key)
            then (invalid_secret, s)
            else elim (Base64.decode req.token) [
              | none ↦ (invalid_response, s)
              | some token ↦
                  if not (length token == token_len)
                  then (invalid_response, s)
                  else redeem now token s
            ]
      ]
