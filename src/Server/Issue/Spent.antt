-- ===== src/Server/Issue/Spent.antt =====
-- `handleVerify` uses a challenge up.
use eu_trust_sdk.Base.{
  ℕ, ◌≡◌, ap, true, Option, some, codes, text_eq, text_eq_refl, Option-cases, inl, inr, Text,
}
use eu_trust_sdk.Base.Map
use eu_trust_sdk.Base.Map.{Map, remove_missing}
use eu_trust_sdk.Crypto.{Crypto}
use eu_trust_sdk.Environment.{Float64}
use eu_trust_sdk.Rsa.Keys.{KeyPair}
use eu_trust_sdk.Server.{Server, ChallengeEntry, HttpRequest}
use eu_trust_sdk.Server.Issue.Outcome.{Aside, sign-Aside, judge-Aside}
use eu_trust_sdk.Server.Issue.{VerifyRequest, sign, handle_verify}

Aside-challenges : (s s' : Server) → Aside s s' → s'.challenges ≡ s.challenges
Aside-challenges s s' (store, same) = rw same

module _ (c : Crypto) (kp : KeyPair) (parse_float : Text → Option Float64)
    (reputation : Text → ℕ) where
  pub sign-challenges :
      (blinded meta key : Text) (s : Server)
      → (sign c kp parse_float reputation blinded meta key s).1.challenges ≡ s.challenges
  sign-challenges blinded meta key s =
      Aside-challenges s _ (sign-Aside c kp parse_float reputation blinded meta key s)

  -- A challenge is good for one call of `/verify`: after a POST with a JSON body that names it, its
  -- entry is gone, whatever the reply, and all other entries are as they were.
  pub handle_verify-challenges :
      (now later : ℕ) (r : HttpRequest) (req : VerifyRequest) (s : Server) (k : Text)
      → r.method ≡ codes "POST"
      → (handle_verify c kp parse_float reputation now later r (some req) s).1.challenges k
        ≡ Map.remove s.challenges req.challenge_id k
  unfolding handle_verify
  handle_verify-challenges now later r req s k post =
      let posted : text_eq r.method (codes "POST") ≡ true = rw post (text_eq_refl (codes "POST")) in
      elim (Option-cases (s.challenges req.challenge_id)) [
        | inl missing ↦
            rw (posted, missing, handle_verify)
              (remove_missing s.challenges req.challenge_id missing k)
        | inr (entry, there) ↦
            rw (posted, there, handle_verify)
              (ap (λ (m : Map ChallengeEntry). m k)
                (Aside-challenges
                  (record s { challenges = Map.remove s.challenges req.challenge_id }) _
                  (judge-Aside c kp parse_float reputation now later r req entry _)))
      ]
