-- ===== src/Server/Calls/Once.antt =====
-- A spent nonce stays spent until its entry runs out.
use eu_trust_sdk.Base.{
  ℕ, ◌≡◌, ◌∙◌, none, some, Option, List, [], ◌∷◌, All, text_eq, text_eq_iff, Bool-cases, inl, inr,
  Text, ◌≢◌, subst,
}
use eu_trust_sdk.Crypto.{Crypto}
use eu_trust_sdk.Environment.{Float64}
use eu_trust_sdk.Rsa.Keys.{KeyPair}
use eu_trust_sdk.Server.{Server, TokenEntry}
use eu_trust_sdk.Server.Cleanup.{clean-kept}
use eu_trust_sdk.Server.Redeem.{Body, SiteVerifyRequest, handle_siteverify, nonce_key, duplicate}
use eu_trust_sdk.Server.Redeem.Accepts.{
  spend, IsRequest, siteverify, siteverify-redeem, redeem-spent,
}
use eu_trust_sdk.Server.Redeem.Outcome.{siteverify-Outcome}
use eu_trust_sdk.Server.Calls.Tokens.{challenge-tokens, verify-tokens}
use eu_trust_sdk.Server.Calls.{
  Call, challenge, verify, siteverify as redeemed, cleanup, IsBefore, step, run,
}

apart : {o : Option TokenEntry} {entry : TokenEntry} → o ≡ none → o ≢ some entry
apart a b = cc

module _ (c : Crypto) (kp : KeyPair) (k : Text) (entry : TokenEntry) where
  spend-kept :
      (now : ℕ) (token : Text) (s : Server)
      → s.tokens (nonce_key token) ≡ none
      → s.tokens k ≡ some entry
      → (spend c kp now token s).tokens k ≡ some entry
  spend-kept now token s fresh e = elim (Bool-cases (text_eq (nonce_key token) k)) [
    | inl same ↦
        absurd (
          apart (subst (λ j. s.tokens j ≡ none) ((text_eq_iff (nonce_key token) k).0 same) fresh) e)
    | inr other ↦ rw other e
  ]

  siteverify-kept :
      (now : ℕ) (method : Text) (body : Body) (s : Server)
      → s.tokens k ≡ some entry
      → (handle_siteverify c kp now method body s).1.tokens k ≡ some entry
  siteverify-kept now method body s e = elim (siteverify-Outcome c kp now method body s) [
    | inl same ↦ rw same e
    | inr (token, fresh, spent) ↦ rw spent (spend-kept now token s fresh e)
  ]

module _ (c : Crypto) (kp : KeyPair) (parse_float : Text → Option Float64)
    (reputation : Text → ℕ) where
  step-kept :
      (k : Text) (entry : TokenEntry) (call : Call) (s : Server)
      → IsBefore entry.expiry call
      → s.tokens k ≡ some entry
      → (step c kp parse_float reputation call s).tokens k ≡ some entry
  unfolding step
  step-kept k entry (challenge clock random r) s h e =
      rw (challenge-tokens c kp parse_float reputation clock random r s) e
  step-kept k entry (verify now later r body) s h e =
      rw (verify-tokens c kp parse_float reputation now later r body s) e
  step-kept k entry (redeemed now method body) s h e =
      siteverify-kept c kp k entry now method body s e
  step-kept k entry (cleanup now) s h e = clean-kept now s k entry e h

  run-kept :
      (k : Text) (entry : TokenEntry) (calls : List Call) (s : Server)
      → All (IsBefore entry.expiry) calls
      → s.tokens k ≡ some entry
      → (run c kp parse_float reputation calls s).tokens k ≡ some entry
  unfolding run
  run-kept k entry [] s h e = e
  run-kept k entry (call ∷ calls) s h e =
      run-kept k entry calls (step c kp parse_float reputation call s) h.1
        (step-kept k entry call s h.0 e)

  -- While a nonce has an entry among the spent ones, and after any calls at all between, a request with
  -- the site's secret and a token of 271 bytes with that nonce is refused as a duplicate and changes
  -- nothing, as long as no round of the cleanup has run later than the entry's expiry.
  pub siteverify-duplicate :
      (entry : TokenEntry) (calls : List Call) (s : Server) (now : ℕ) (req : SiteVerifyRequest)
      (token : Text)
      → s.tokens (nonce_key token) ≡ some entry
      → All (IsBefore entry.expiry) calls
      → IsRequest c kp req token
      → siteverify c kp now req (run c kp parse_float reputation calls s)
        ≡ (duplicate, run c kp parse_float reputation calls s)
  siteverify-duplicate entry calls s now req token spent early q =
      siteverify-redeem c kp now req token _ q
      ∙ redeem-spent c kp now token _ entry (run-kept (nonce_key token) entry calls s early spent)
