-- ===== src/Server/Redeem/Again.antt =====
-- A token after its nonce is cleaned up.
use eu_trust_sdk.Base.{ℕ, ◌+◌, ◌<◌, ◌≡◌, true, none, Text}
use eu_trust_sdk.Crypto.{Crypto}
use eu_trust_sdk.Rsa.Keys.{KeyPair}
use eu_trust_sdk.Base.Map.{insert_self}
use eu_trust_sdk.Server.Cleanup.{clean-expired}
use eu_trust_sdk.Server.{Server, clean, token_ttl}
use eu_trust_sdk.Server.Redeem.{SiteVerifyRequest, nonce_key}
use eu_trust_sdk.Server.Redeem.Accepts.{
  succeeded, spend, IsRequest, siteverify, siteverify_iff, siteverify-redeem, redeem-spendable,
}

module _ (c : Crypto) (kp : KeyPair) where
  freed :
      (now later : ℕ) (token : Text) (s : Server)
      → now + token_ttl < later
      → (clean later (spend c kp now token s)).tokens (nonce_key token) ≡ none
  freed now later token s h =
      clean-expired later (spend c kp now token s) (nonce_key token)
        (record { expiry = now + token_ttl })
        (insert_self s.tokens (nonce_key token) (record { expiry = now + token_ttl })) h

  -- A token that was accepted is accepted a second time, at any time, when a round of the cleanup
  -- has run more than 300 seconds after the first.
  pub siteverify-again :
      (now later again : ℕ) (req : SiteVerifyRequest) (token : Text) (s : Server)
      → IsRequest c kp req token
      → succeeded (siteverify c kp now req s).0 ≡ true
      → now + token_ttl < later
      → succeeded (siteverify c kp again req (clean later (siteverify c kp now req s).1)).0 ≡ true
  siteverify-again now later again req token s q first h =
      let (meta, ok_then) = (siteverify_iff c kp now req token s q).0 first in
      rw (siteverify-redeem c kp now req token s q, redeem-spendable c kp now token meta s ok_then)
        ((siteverify_iff c kp again req token _ q).1 (
          meta,
          record {
            fresh = freed now later token s h;
            named = ok_then.named;
            signed = ok_then.signed;
          },
        ))
