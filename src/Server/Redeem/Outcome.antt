-- ===== src/Server/Redeem/Outcome.antt =====
-- What a call of `/siteverify` does to the state.
use eu_trust_sdk.Base.{
  ℕ, ◌≡◌, refl, none, codes, length, ◌==◌, text_eq, Bool-cases, Option-cases, ◌⊎◌, inl, inr, Text,
  ap, subst, sym,
}
use eu_trust_sdk.Base.Base64
use eu_trust_sdk.Crypto.{Crypto}
use eu_trust_sdk.Api.Metadata.{TrustMetadata, decode_metadata}
use eu_trust_sdk.Rsa.Error.{Result-cases}
use eu_trust_sdk.Rsa.Keys.{KeyPair, public_key}
use eu_trust_sdk.Rsa.Protocol
use eu_trust_sdk.Server.{Server, token_len, test_site_key}
use eu_trust_sdk.Server.Redeem.{
  Body, read_body, check_signature, redeem, handle_siteverify, sig_of, meta_of, nonce_of, nonce_key,
}
use eu_trust_sdk.Server.Redeem.Accepts.{spend, redeem-spent, redeem-named, redeem-unnamed}

module _ (c : Crypto) (kp : KeyPair) where
  -- Nothing, or a nonce is spent that was not.
  abbrev pub Outcome : ℕ → Server → Server → Type 0
  Outcome now s s' =
      (s' ≡ s)
      ⊎ ((token : Text) × (s.tokens (nonce_key token) ≡ none) × (s' ≡ spend c kp now token s))

  pub check_signature-Outcome :
      (now : ℕ) (token : Text) (meta : TrustMetadata) (s : Server)
      → s.tokens (nonce_key token) ≡ none
      → Outcome now s (check_signature c kp now token meta s).1
  unfolding check_signature
  check_signature-Outcome now token meta s fresh =
      elim (Result-cases
        (Protocol.verify c (public_key kp) (nonce_of token) (meta_of token) (sig_of token))) [
          | inr (x, bad) ↦ rw (bad, check_signature) (inl refl)
          | inl (_, good) ↦ rw (good, check_signature) (inr (token, fresh, refl))
        ]

  redeem-Outcome : (now : ℕ) (token : Text) (s : Server) → Outcome now s (redeem c kp now token s).1
  redeem-Outcome now token s = elim (Option-cases (s.tokens (nonce_key token))) [
    | inr (other, spent) ↦ inl (ap (λ x. x.1) (redeem-spent c kp now token s other spent))
    | inl fresh ↦ elim (Option-cases (decode_metadata (meta_of token))) [
      | inl bad ↦ inl (ap (λ x. x.1) (redeem-unnamed c kp now token s fresh bad))
      | inr (meta, named) ↦
          subst (λ x. Outcome now s x.1) (sym (redeem-named c kp now token s meta fresh named))
            (check_signature-Outcome now token meta s fresh)
    ]
  ]

  pub siteverify-Outcome :
      (now : ℕ) (method : Text) (body : Body) (s : Server)
      → Outcome now s (handle_siteverify c kp now method body s).1
  unfolding handle_siteverify
  siteverify-Outcome now method body s = elim (Bool-cases (text_eq method (codes "POST"))) [
    | inr other ↦ rw (other, handle_siteverify) (inl refl)
    | inl post ↦ elim (Option-cases (read_body body)) [
      | inl bad ↦ rw (post, bad, handle_siteverify) (inl refl)
      | inr (req, read) ↦ elim (Bool-cases (text_eq req.secret test_site_key)) [
        | inr other ↦ rw (post, read, other, handle_siteverify) (inl refl)
        | inl right ↦ elim (Option-cases (Base64.decode req.token)) [
          | inl bad ↦ rw (post, read, right, bad, handle_siteverify) (inl refl)
          | inr (token, decoded) ↦ elim (Bool-cases (length token == token_len)) [
            | inr other ↦ rw (post, read, right, decoded, other, handle_siteverify) (inl refl)
            | inl size ↦
                rw (post, read, right, decoded, size, handle_siteverify)
                  (redeem-Outcome now token s)
          ]
        ]
      ]
    ]
  ]
