-- ===== src/Server/Issue/Signs.antt =====
-- What a signature of `handleVerify` stands for.
use eu_trust_sdk.Base.{
  ℕ, ◌≡◌, ◌≢◌, sym, ap, subst, ◌∙◌, true, Option, none, some, codes, ltb, text_eq, text_eq_refl,
  Option-cases, inl, inr, Text, ◌↔◌,
}
use eu_trust_sdk.Base.Map
use eu_trust_sdk.Base.Base64
use eu_trust_sdk.Crypto.{Crypto}
use eu_trust_sdk.Double
use eu_trust_sdk.Environment.{Float64}
use eu_trust_sdk.Challenge.Error as Failure
use eu_trust_sdk.Challenge.Composite
use eu_trust_sdk.Rsa.Error.{
  Result-cases, Error, ok, err, encoding_error, blinding_error, invalid_input, signing_failure,
  invalid_sig, not_coprime, read_error, panic,
}
use eu_trust_sdk.Rsa.Keys.{KeyPair}
use eu_trust_sdk.Rsa.Protocol.{blind_sign}
use eu_trust_sdk.Server.{Server, ChallengeEntry, HttpRequest, failed, json, aborted}
use eu_trust_sdk.Server.Issue.{
  VerifyRequest, VerifyResponse, unsigned, sign, answer, validator, site_key_of, with_event,
  judge_response, handle_verify,
}

no_json : (n : ℕ) (resp : VerifyResponse) → failed n ≢ json resp
no_json n resp e = cc

no_reply : (resp : VerifyResponse) → aborted ≢ json resp
no_reply resp e = cc

unsigned-no_json : (x : Error) (resp : VerifyResponse) → unsigned x ≢ json resp
unsigned-no_json encoding_error = no_json 500
unsigned-no_json blinding_error = no_json 500
unsigned-no_json invalid_input = no_json 500
unsigned-no_json signing_failure = no_json 500
unsigned-no_json invalid_sig = no_json 500
unsigned-no_json not_coprime = no_json 500
unsigned-no_json read_error = no_json 500
unsigned-no_json panic = no_reply

json-injective : {a b : VerifyResponse} → json a ≡ json b → a ≡ b
json-injective e = cc

module _ (c : Crypto) (kp : KeyPair) (parse_float : Text → Option Float64)
    (reputation : Text → ℕ) where
  -- What a client has shown that gets a signature.
  pub record IsSigned (now : ℕ) (req : VerifyRequest) (s : Server) (resp : VerifyResponse)
      : Type 0 where
    pub entry : ChallengeEntry
    pub found : s.challenges req.challenge_id ≡ some entry
    pub verdict : ℕ × ℕ
    pub passed :
        Composite.verify c now entry.payload
          (answer req)
          (some (validator c kp parse_float reputation))
        ≡ Failure.ok verdict
    pub msg : Text
    pub decoded : Base64.decode req.blinded_msg ≡ some msg
    pub sig : Text
    pub signed : blind_sign c kp msg entry.predicted_meta ≡ ok sig
    pub reply : resp ≡ record {
      blind_signature = Base64.encode sig;
      metadata = Base64.encode entry.predicted_meta;
    }

  module _ (blinded meta key : Text) (s : Server) where
    sign-bad :
        Base64.decode blinded ≡ none
        → (sign c kp parse_float reputation blinded meta key s).0 ≡ failed 400
    unfolding sign
    sign-bad bad = rw (bad, sign)

    sign-failed :
        (msg : Text) (x : Error)
        → Base64.decode blinded ≡ some msg
        → blind_sign c kp msg meta ≡ err x
        → (sign c kp parse_float reputation blinded meta key s).0 ≡ unsigned x
    unfolding sign
    sign-failed msg x good failure = rw (good, failure, sign)

    pub sign-good :
        (msg sig : Text)
        → Base64.decode blinded ≡ some msg
        → blind_sign c kp msg meta ≡ ok sig
        → (sign c kp parse_float reputation blinded meta key s).0
          ≡ json (record { blind_signature = Base64.encode sig; metadata = Base64.encode meta })
    unfolding sign
    sign-good msg sig good signed = rw (good, signed, sign)

  pub sign-json :
      (blinded meta key : Text) (s : Server) (resp : VerifyResponse)
      → (sign c kp parse_float reputation blinded meta key s).0 ≡ json resp
      → (msg : Text) × (sig : Text) × (Base64.decode blinded ≡ some msg)
        × (blind_sign c kp msg meta ≡ ok sig)
        × (resp ≡ record { blind_signature = Base64.encode sig; metadata = Base64.encode meta })
  sign-json blinded meta key s resp e = elim (Option-cases (Base64.decode blinded)) [
    | inl bad ↦ absurd (no_json 400 resp (sym (sign-bad blinded meta key s bad) ∙ e))
    | inr (msg, good) ↦ elim (Result-cases (blind_sign c kp msg meta)) [
      | inr (x, failure) ↦
          absurd
            (unsigned-no_json x resp (sym (sign-failed blinded meta key s msg x good failure) ∙ e))
      | inl (sig, signed) ↦ (
        msg,
        sig,
        good,
        signed,
        json-injective (sym e ∙ sign-good blinded meta key s msg sig good signed),
      )
    ]
  ]

  module _ (now later : ℕ) (r : HttpRequest) (req : VerifyRequest) (s : Server) where
    pub judge-refused :
        (entry : ChallengeEntry) (x : Failure.Error)
        → Composite.verify c now entry.payload
            (answer req)
            (some (validator c kp parse_float reputation))
          ≡ Failure.err x
        → judge_response c kp parse_float reputation now later r req entry s ≡ (failed 400, s)
    unfolding judge_response
    judge-refused entry x refused = rw (refused, judge_response)

    pub judge-passed :
        (entry : ChallengeEntry) (verdict : ℕ × ℕ)
        → Composite.verify c now entry.payload
            (answer req)
            (some (validator c kp parse_float reputation))
          ≡ Failure.ok verdict
        → judge_response c kp parse_float reputation now later r req entry s
          ≡ sign c kp parse_float reputation req.blinded_msg entry.predicted_meta (site_key_of r) (
              with_event c kp parse_float reputation later r
                (ltb verdict.1 (Double.literal 5 10))
                s)
    unfolding judge_response
    judge-passed entry verdict passed = rw (passed, judge_response)

    pub verify-missing :
        r.method ≡ codes "POST"
        → s.challenges req.challenge_id ≡ none
        → handle_verify c kp parse_float reputation now later r (some req) s ≡ (failed 400, s)
    unfolding handle_verify
    verify-missing post missing =
        let posted : text_eq r.method (codes "POST") ≡ true =
          rw post (text_eq_refl (codes "POST")) in
        rw (posted, missing, handle_verify)

    pub verify-found :
        (entry : ChallengeEntry)
        → r.method ≡ codes "POST"
        → s.challenges req.challenge_id ≡ some entry
        → handle_verify c kp parse_float reputation now later r (some req) s
          ≡ judge_response c kp parse_float reputation now later r req entry
              (record s { challenges = Map.remove s.challenges req.challenge_id })
    unfolding handle_verify
    verify-found entry post there =
        let posted : text_eq r.method (codes "POST") ≡ true =
          rw post (text_eq_refl (codes "POST")) in
        rw (posted, there, handle_verify)

  handle_verify-IsSigned :
      (now later : ℕ) (r : HttpRequest) (req : VerifyRequest) (s : Server) (resp : VerifyResponse)
      → r.method ≡ codes "POST"
      → (handle_verify c kp parse_float reputation now later r (some req) s).0 ≡ json resp
      → IsSigned now req s resp
  handle_verify-IsSigned now later r req s resp post e =
      elim (Option-cases (s.challenges req.challenge_id)) [
        | inl missing ↦ absurd (
            no_json 400 resp
              (sym (ap (λ x. x.0) (verify-missing now later r req s post missing)) ∙ e))
        | inr (entry, there) ↦
            let t : Server = record s { challenges = Map.remove s.challenges req.challenge_id } in
            let e' =
              subst (λ x. x.0 ≡ json resp) (verify-found now later r req s entry post there) e in
            elim (Failure.Result-cases (
              Composite.verify c now entry.payload (answer req)
                (some (validator c kp parse_float reputation)))) [
                  | inr (x, refused) ↦ absurd (
                      no_json 400 resp (
                        sym (ap (λ x. x.0) (judge-refused now later r req t entry x refused)) ∙ e'))
                  | inl (verdict, passed) ↦
                      let e'' =
                        subst (λ x. x.0 ≡ json resp)
                          (judge-passed now later r req t entry verdict passed) e' in
                      let (msg, sig, decoded, signed, reply) =
                        sign-json req.blinded_msg entry.predicted_meta _ _ resp e'' in
                      record {
                        entry = entry;
                        found = there;
                        verdict = verdict;
                        passed = passed;
                        msg = msg;
                        decoded = decoded;
                        sig = sig;
                        signed = signed;
                        reply = reply;
                      }
                ]
      ]

  -- A POST to `/verify` gets a signature exactly where the challenge that it names is stored,
  -- `challenge.Verify` accepts the response for it, with whatever class and score, and `BlindSign`
  -- succeeds on the blinded message and the metadata that was stored with the challenge; the reply
  -- is that signature with that metadata.
  pub handle_verify_iff :
      (now later : ℕ) (r : HttpRequest) (req : VerifyRequest) (s : Server) (resp : VerifyResponse)
      → r.method ≡ codes "POST"
      → ((handle_verify c kp parse_float reputation now later r (some req) s).0 ≡ json resp)
        ↔ IsSigned now req s resp
  handle_verify_iff now later r req s resp post = (
    handle_verify-IsSigned now later r req s resp post,
    λ h.
        let t : Server = record s { challenges = Map.remove s.challenges req.challenge_id } in
        let found = verify-found now later r req s h.entry post h.found in
        let passed = judge-passed now later r req t h.entry h.verdict h.passed in
        rw (found, passed, h.reply)
          (sign-good req.blinded_msg h.entry.predicted_meta _ _ h.msg h.sig h.decoded h.signed),
  )
