-- ===== src/Server/Redeem/Accepts.antt =====
-- When `handleSiteverify` accepts a token.
use eu_trust_sdk.Base.{
  ℕ, ◌+◌, ◌≡◌, ◌≢◌, subst, arith, Bool, true, false, none, some, codes, length, ◌==◌, text_eq,
  text_eq_refl, Option-cases, inl, inr, Text, ◌↔◌,
}
use eu_trust_sdk.Base.Map
use eu_trust_sdk.Base.Map.{insert_self}
use eu_trust_sdk.Base.Base64
use eu_trust_sdk.Crypto.{Crypto}
use eu_trust_sdk.Api.Metadata.{TrustMetadata, decode_metadata}
use eu_trust_sdk.Rsa.Error.{
  Result-cases, Error, ok, err, encoding_error, blinding_error, invalid_input, signing_failure,
  invalid_sig, not_coprime, read_error, panic,
}
use eu_trust_sdk.Rsa.Keys.{KeyPair, public_key}
use eu_trust_sdk.Rsa.Protocol
use eu_trust_sdk.Server.{Server, TokenEntry, Reply, json, test_site_key, token_len, token_ttl}
use eu_trust_sdk.Server.Redeem.{
  SiteVerifyRequest, SiteVerifyResponse, json_text, invalid_response, duplicate, accepted, refusal,
  nonce_of, meta_of, sig_of, nonce_key, check_signature, redeem, handle_siteverify,
}

-- The `success` field of a reply that has one.
abbrev pub succeeded : Reply SiteVerifyResponse → Bool
succeeded (json r) = r.success
succeeded _ = false

false-apart : false ≢ true
false-apart e = cc

refused : (x : Error) → succeeded (refusal x) ≢ true
refused encoding_error = false-apart
refused blinding_error = false-apart
refused invalid_input = false-apart
refused signing_failure = false-apart
refused invalid_sig = false-apart
refused not_coprime = false-apart
refused read_error = false-apart
refused panic = false-apart

still :
    {r r' : Reply SiteVerifyResponse × Server}
    → succeeded r.0 ≡ true
    → r ≡ r'
    → succeeded r'.0 ≡ true
still h e = subst (λ r. succeeded r.0 ≡ true) e h

module _ (c : Crypto) (kp : KeyPair) where
  abbrev pub spend : ℕ → Text → Server → Server
  spend now token s = record s {
    tokens = Map.insert s.tokens (nonce_key token) (record { expiry = now + token_ttl });
  }

  -- A well-formed request, down to the bytes of its token.
  pub record IsRequest (req : SiteVerifyRequest) (token : Text) : Type 0 where
    pub right_secret : req.secret ≡ test_site_key
    pub decoded : Base64.decode req.token ≡ some token
    pub long : length token ≡ token_len

  abbrev pub siteverify : ℕ → SiteVerifyRequest → Server → Reply SiteVerifyResponse × Server
  siteverify now req s = handle_siteverify c kp now (codes "POST") (json_text (some req)) s

  pub siteverify-redeem :
      (now : ℕ) (req : SiteVerifyRequest) (token : Text) (s : Server)
      → IsRequest req token
      → siteverify now req s ≡ redeem c kp now token s
  unfolding handle_siteverify
  siteverify-redeem now req token s q =
      let right : text_eq req.secret test_site_key ≡ true =
        rw (q.right_secret) (text_eq_refl test_site_key) in
      let size : (length token == token_len) ≡ true = ground (arith, q.long) in
      rw (text_eq_refl (codes "POST"), right, q.decoded, size, handle_siteverify)

  -- What it takes for the bytes of a token to be accepted.
  pub record IsSpendable (token : Text) (meta : TrustMetadata) (s : Server) : Type 0 where
    pub fresh : s.tokens (nonce_key token) ≡ none
    pub named : decode_metadata (meta_of token) ≡ some meta
    pub signed :
        Protocol.verify c (public_key kp) (nonce_of token) (meta_of token) (sig_of token) ≡ ok tt

  pub check_signature-signed :
      (now : ℕ) (token : Text) (meta : TrustMetadata) (s : Server)
      → Protocol.verify c (public_key kp) (nonce_of token) (meta_of token) (sig_of token) ≡ ok tt
      → check_signature c kp now token meta s ≡ (accepted meta, spend now token s)
  unfolding check_signature
  check_signature-signed now token meta s h = rw (h, check_signature)

  pub redeem-spendable :
      (now : ℕ) (token : Text) (meta : TrustMetadata) (s : Server)
      → IsSpendable token meta s
      → redeem c kp now token s ≡ (accepted meta, spend now token s)
  unfolding redeem
  redeem-spendable now token meta s h =
      rw (h.fresh, h.named, check_signature-signed now token meta s h.signed, redeem)

  check_signature-refused :
      (now : ℕ) (token : Text) (meta : TrustMetadata) (s : Server) (x : Error)
      → Protocol.verify c (public_key kp) (nonce_of token) (meta_of token) (sig_of token) ≡ err x
      → check_signature c kp now token meta s ≡ (refusal x, s)
  unfolding check_signature
  check_signature-refused now token meta s x h = rw (h, check_signature)

  check_signature-success :
      (now : ℕ) (token : Text) (meta : TrustMetadata) (s : Server)
      → succeeded (check_signature c kp now token meta s).0 ≡ true
      → Protocol.verify c (public_key kp) (nonce_of token) (meta_of token) (sig_of token) ≡ ok tt
  check_signature-success now token meta s e =
      elim (Result-cases
        (Protocol.verify c (public_key kp) (nonce_of token) (meta_of token) (sig_of token))) [
          | inl (_, good) ↦ good
          | inr (x, bad) ↦
              absurd (refused x (still e (check_signature-refused now token meta s x bad)))
        ]

  pub redeem-spent :
      (now : ℕ) (token : Text) (s : Server) (entry : TokenEntry)
      → s.tokens (nonce_key token) ≡ some entry
      → redeem c kp now token s ≡ (duplicate, s)
  unfolding redeem
  redeem-spent now token s entry e = rw (e, redeem)

  pub redeem-unnamed :
      (now : ℕ) (token : Text) (s : Server)
      → s.tokens (nonce_key token) ≡ none
      → decode_metadata (meta_of token) ≡ none
      → redeem c kp now token s ≡ (invalid_response, s)
  unfolding redeem
  redeem-unnamed now token s fresh bad = rw (fresh, bad, redeem)

  pub redeem-named :
      (now : ℕ) (token : Text) (s : Server) (meta : TrustMetadata)
      → s.tokens (nonce_key token) ≡ none
      → decode_metadata (meta_of token) ≡ some meta
      → redeem c kp now token s ≡ check_signature c kp now token meta s
  unfolding redeem
  redeem-named now token s meta fresh named = rw (fresh, named, redeem)

  pub redeem-success :
      (now : ℕ) (token : Text) (s : Server)
      → succeeded (redeem c kp now token s).0 ≡ true
      → (meta : TrustMetadata) × IsSpendable token meta s
  redeem-success now token s e = elim (Option-cases (s.tokens (nonce_key token))) [
    | inr (entry, spent) ↦ absurd (false-apart (still e (redeem-spent now token s entry spent)))
    | inl fresh ↦ elim (Option-cases (decode_metadata (meta_of token))) [
      | inl bad ↦ absurd (false-apart (still e (redeem-unnamed now token s fresh bad)))
      | inr (meta, named) ↦ (
        meta,
        record {
          fresh = fresh;
          named = named;
          signed =
              check_signature-success now token meta s
                (still e (redeem-named now token s meta fresh named));
        },
      )
    ]
  ]

  -- A well-formed request succeeds exactly when the nonce of its token has no entry among the spent
  -- ones, the token's seven bytes of metadata decode, and its signature over the nonce and these
  -- bytes verifies.
  pub siteverify_iff :
      (now : ℕ) (req : SiteVerifyRequest) (token : Text) (s : Server)
      → IsRequest req token
      → (succeeded (siteverify now req s).0 ≡ true)
        ↔ ((meta : TrustMetadata) × IsSpendable token meta s)
  siteverify_iff now req token s q = (
    λ e. redeem-success now token s (still e (siteverify-redeem now req token s q)),
    λ (meta, h). rw (siteverify-redeem now req token s q, redeem-spendable now token meta s h),
  )
