-- ===== src/Server/Issue/Outcome.antt =====
-- What a call of `/verify` does to the state.
use eu_trust_sdk.Base.{
  ℕ, ◌≡◌, refl, some, Option, codes, text_eq, Bool-cases, Option-cases, inl, inr, Text, ◌⊎◌,
}
use eu_trust_sdk.Base.Map
use eu_trust_sdk.Base.Base64
use eu_trust_sdk.Crypto.{Crypto}
use eu_trust_sdk.Environment.{Float64}
use eu_trust_sdk.Challenge.Error as Failure
use eu_trust_sdk.Challenge.Composite
use eu_trust_sdk.Rsa.Error.{Result-cases}
use eu_trust_sdk.Rsa.Keys.{KeyPair}
use eu_trust_sdk.Rsa.Protocol.{blind_sign}
use eu_trust_sdk.Temperature.Store.{Store}
use eu_trust_sdk.Server.{Server, ChallengeEntry, HttpRequest}
use eu_trust_sdk.Server.Issue.{
  VerifyRequest, sign, answer, validator, judge_response, handle_verify,
}

-- Nothing but the temperature store differs.
abbrev pub Aside : Server → Server → Type 0
Aside s s' = (store : Store) × (s' ≡ record s { temp_store = store })

-- Nothing at all, or a challenge is gone and the temperature store may differ.
abbrev pub Outcome : Server → Server → Type 0
Outcome s s' =
    (s' ≡ s) ⊎ ((id : Text) × Aside (record s { challenges = Map.remove s.challenges id }) s')

unmoved : {s : Server} → Aside s s
unmoved {s} = (s.temp_store, refl)

module _ (c : Crypto) (kp : KeyPair) (parse_float : Text → Option Float64)
    (reputation : Text → ℕ) where
  pub sign-Aside :
      (blinded meta key : Text) (s : Server)
      → Aside s (sign c kp parse_float reputation blinded meta key s).1
  unfolding sign
  sign-Aside blinded meta key s = elim (Option-cases (Base64.decode blinded)) [
    | inl bad ↦ rw (bad, sign) unmoved
    | inr (msg, good) ↦ elim (Result-cases (blind_sign c kp msg meta)) [
      | inl (sig, signed) ↦ rw (good, signed, sign) (_, refl)
      | inr (x, failure) ↦ rw (good, failure, sign) unmoved
    ]
  ]

  pub judge-Aside :
      (now later : ℕ) (r : HttpRequest) (req : VerifyRequest) (entry : ChallengeEntry) (s : Server)
      → Aside s (judge_response c kp parse_float reputation now later r req entry s).1
  unfolding judge_response
  judge-Aside now later r req entry s =
      elim (Failure.Result-cases (
        Composite.verify c now entry.payload (answer req)
          (some (validator c kp parse_float reputation)))) [
            | inr (x, refused) ↦ rw (refused, judge_response) unmoved
            | inl (verdict, passed) ↦
                let signed = sign-Aside req.blinded_msg entry.predicted_meta _ _ in
                rw (passed, judge_response) (signed.0, signed.1)
          ]

  pub verify-Outcome :
      (now later : ℕ) (r : HttpRequest) (body : Option VerifyRequest) (s : Server)
      → Outcome s (handle_verify c kp parse_float reputation now later r body s).1
  unfolding handle_verify
  verify-Outcome now later r body s = elim (Bool-cases (text_eq r.method (codes "POST"))) [
    | inr other ↦ rw (other, handle_verify) (inl refl)
    | inl post ↦ elim (Option-cases body) [
      | inl bad ↦ rw (bad, post, handle_verify) (inl refl)
      | inr (req, read) ↦ elim (Option-cases (s.challenges req.challenge_id)) [
        | inl missing ↦ rw (read, post, missing, handle_verify) (inl refl)
        | inr (entry, there) ↦
            rw (read, post, there, handle_verify)
              (inr (req.challenge_id, judge-Aside now later r req entry _))
      ]
    ]
  ]
