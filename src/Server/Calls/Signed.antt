-- ===== src/Server/Calls/Signed.antt =====
-- What a signature stands for in a state that calls have led to.
use eu_trust_sdk.Base.{
  ℕ, ◌≤◌, ◌≡◌, ◌↔◌, ap, subst, sym, ◌∙◌, some, Option, codes, Bool-cases, Option-cases, inl, inr,
  Text, arith, ltb, List, All,
}
use eu_trust_sdk.Base.Base64
use eu_trust_sdk.Crypto.{Crypto}
use eu_trust_sdk.Environment.{Float64}
use eu_trust_sdk.Api.Metadata.{encode}
use eu_trust_sdk.Challenge.Error as Failure
use eu_trust_sdk.Challenge.Argon2.{Argon2Challenge}
use eu_trust_sdk.Challenge.Composite.Accepts.{HasClass, verify_iff}
use eu_trust_sdk.Challenge.HashCash.{HashCashChallenge, verify_hash_cash}
use eu_trust_sdk.Rsa.Keys.{KeyPair}
use eu_trust_sdk.Server.{Server, ChallengeEntry, HttpRequest, clean, new_server, json}
use eu_trust_sdk.Server.Issue.{
  VerifyRequest, VerifyResponse, predicted, answer, validator, handle_verify,
}
use eu_trust_sdk.Server.Issue.Signs.{IsSigned, handle_verify_iff}
use eu_trust_sdk.Server.Calls.{Call, run}
use eu_trust_sdk.Server.Calls.Entries.{IsSound, empty-IsSound}
use eu_trust_sdk.Server.Calls.Stored.{IsOrdered, run-IsSound}

some-injective : {a b : ChallengeEntry} → some a ≡ some b → a ≡ b
some-injective e = cc

clean-found :
    (cutoff : ℕ) (s : Server) (id : Text) (entry : ChallengeEntry)
    → ((clean cutoff s).challenges id ≡ some entry)
      ↔ ((s.challenges id ≡ some entry) × (cutoff ≤ entry.expiry))
unfolding clean
clean-found cutoff s id entry = elim (Option-cases (s.challenges id)) [
  | inl missing ↦ rw missing (λ e. cc e, λ h. cc h.0)
  | inr (there, found) ↦ elim (Bool-cases (ltb there.expiry cutoff)) [
    | inl late ↦
        rw (found, late)
          (
            λ e. cc e,
            λ (e, kept). absurd (
                ground (
                  arith,
                  late,
                  subst (λ (x : ChallengeEntry). cutoff ≤ x.expiry) (sym (some-injective e)) kept,
                )),
          )
    | inr early ↦
        rw (found, early)
          (
            λ e. (
              e,
              subst (λ (x : ChallengeEntry). cutoff ≤ x.expiry) (some-injective e)
                  (ground (arith, early)),
            ),
            λ h. h.0,
          )
  ]
]

module _ (c : Crypto) (kp : KeyPair) (parse_float : Text → Option Float64)
    (reputation : Text → ℕ) where
  -- What the client has shown for a stored challenge.
  pub record IsSolved (req : VerifyRequest) (s : Server) (resp : VerifyResponse) : Type 0 where
    pub entry : ChallengeEntry
    pub found : s.challenges req.challenge_id ≡ some entry
    pub hash_cash : HashCashChallenge
    pub argon2 : Argon2Challenge
    pub has_hash_cash : entry.payload.hash_cash ≡ some hash_cash
    pub has_argon2 : entry.payload.argon2 ≡ some argon2
    pub class : ℕ
    pub bucket : ℕ
    pub time : ℕ
    pub work : verify_hash_cash c hash_cash req.hash_cash ≡ Failure.ok tt
    pub memory : HasClass c argon2 req.argon2_result class
    pub in_table : bucket ≤ 3
    pub metadata : resp.metadata ≡ Base64.encode (encode (predicted bucket time))

  moved-IsSigned :
      (now : ℕ) (req : VerifyRequest) (s t : Server) (resp : VerifyResponse)
      (h : IsSigned c kp parse_float reputation now req s resp)
      → t.challenges req.challenge_id ≡ some h.entry
      → IsSigned c kp parse_float reputation now req t resp
  moved-IsSigned now req s t resp h found = record {
    entry = h.entry;
    found = found;
    verdict = h.verdict;
    passed = h.passed;
    msg = h.msg;
    decoded = h.decoded;
    sig = h.sig;
    signed = h.signed;
    reply = h.reply;
  }

  module _ (now later : ℕ) (r : HttpRequest) (req : VerifyRequest) (s : Server)
      (resp : VerifyResponse) (post : r.method ≡ codes "POST") (sound : IsSound s.challenges) where
    IsSigned-IsSolved : IsSigned c kp parse_float reputation now req s resp → IsSolved req s resp
    IsSigned-IsSolved h =
        let made = sound req.challenge_id h.entry h.found in
        let (early, _, _, work, memory, _) =
          (verify_iff c now h.entry.payload (answer req)
              (some (validator c kp parse_float reputation)) made.hash_cash made.argon2 h.verdict.0
              h.verdict.1 made.has_hash_cash made.has_argon2).0
            h.passed in
        record {
          hash_cash = made.hash_cash;
          argon2 = made.argon2;
          entry = h.entry;
          found = h.found;
          has_hash_cash = made.has_hash_cash;
          has_argon2 = made.has_argon2;
          class = h.verdict.0;
          bucket = made.bucket;
          time = made.time;
          work = work;
          memory = memory;
          in_table = made.in_table;
          metadata = ap (λ (x : VerifyResponse). x.metadata) h.reply ∙ ap Base64.encode made.meta;
        }

    IsSigned-early :
        (h : IsSigned c kp parse_float reputation now req s resp) → now ≤ h.entry.expiry
    IsSigned-early h =
        let made = sound req.challenge_id h.entry h.found in
        let (early, _, _, _, _, _) =
          (verify_iff c now h.entry.payload (answer req)
              (some (validator c kp parse_float reputation)) made.hash_cash made.argon2 h.verdict.0
              h.verdict.1 made.has_hash_cash made.has_argon2).0
            h.passed in
        omega (arith, early, made.outlives)

    -- Where all stored challenges are as `/challenge` makes them, a round of the cleanup that is not
    -- later than a POST to `/verify` makes no difference to which signature this gets, or whether it
    -- gets one.
    pub handle_verify-clean :
        (cutoff : ℕ)
        → cutoff ≤ now
        → ((handle_verify c kp parse_float reputation now later r (some req) (clean cutoff s)).0
            ≡ json resp)
          ↔ ((handle_verify c kp parse_float reputation now later r (some req) s).0 ≡ json resp)
    handle_verify-clean cutoff before =
        let here = handle_verify_iff c kp parse_float reputation now later r req s resp post in
        let there =
          handle_verify_iff c kp parse_float reputation now later r req (clean cutoff s) resp
            post in
        (
          λ e.
              let h = there.0 e in
              here.1 (
                moved-IsSigned now req (clean cutoff s) s resp h
                  ((clean-found cutoff s req.challenge_id h.entry).0 h.found).0),
          λ e.
              let h = here.0 e in
              there.1 (
                moved-IsSigned now req s (clean cutoff s) resp h (
                  (clean-found cutoff s req.challenge_id h.entry).1
                    (h.found, omega (arith, before, IsSigned-early h)))),
        )

  -- In every state that calls lead to from a new server, as long as the clock does not run back within
  -- a call, a POST to `/verify` that gets a signature has solved the hashcash puzzle of a stored
  -- challenge, and its Argon2 puzzle or none; the metadata of the reply is the encoding of class 2,
  -- device 1, some hour and one of the four buckets.
  pub run-IsSolved :
      (calls : List Call) (now later : ℕ) (r : HttpRequest) (req : VerifyRequest)
      (resp : VerifyResponse)
      → r.method ≡ codes "POST"
      → All IsOrdered calls
      → (handle_verify c kp parse_float reputation now later r
          (some req)
          (run c kp parse_float reputation calls new_server)).0
        ≡ json resp
      → IsSolved req (run c kp parse_float reputation calls new_server) resp
  run-IsSolved calls now later r req resp post ordered e =
      let s = run c kp parse_float reputation calls new_server in
      IsSigned-IsSolved now later r req s resp post
        (run-IsSound c kp parse_float reputation calls new_server ordered empty-IsSound)
        ((handle_verify_iff c kp parse_float reputation now later r req s resp post).0 e)
