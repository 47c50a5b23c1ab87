-- ===== src/Server/Overlap/Alone.antt =====
-- A thread that runs on its own does what the handler does.
use eu_trust_sdk.Base.{
  ℕ, ◌≡◌, subst, sym, Option, some, [], ◌∷◌, Text, codes, Option-cases, inl, inr,
}
use eu_trust_sdk.Crypto.{Crypto}
use eu_trust_sdk.Environment.{Float64}
use eu_trust_sdk.Api.Metadata.{decode_metadata}
use eu_trust_sdk.Challenge.Error as Failure
use eu_trust_sdk.Rsa.Keys.{KeyPair}
use eu_trust_sdk.Server.{Server, ChallengeEntry, Reply}
use eu_trust_sdk.Server.Issue.{VerifyResponse, handle_verify, judge_response}
use eu_trust_sdk.Server.Issue.Signs.{verify-missing, verify-found, judge-refused, judge-passed}
use eu_trust_sdk.Server.Redeem.{SiteVerifyResponse, nonce_key, meta_of, redeem}
use eu_trust_sdk.Server.Redeem.Accepts.{redeem-spent, redeem-unnamed, redeem-named}
use eu_trust_sdk.Server.Overlap.{
  Verification, Thread, verify_load, verify_judge, verify_done, redeem_load, redeem_done,
  verdict_of, Move, load_found, load_missing, delete_challenge, judge_refused, judge_passed,
  sign_reply, token_fresh, token_spent, check_unnamed, check_named, System, pick, Reach, start,
  later,
}

module _ (c : Crypto) (kp : KeyPair) (parse_float : Text → Option Float64)
    (reputation : Text → ℕ) where
  abbrev only : Server → Thread → System
  only s t = record { shared = s; threads = t ∷ [] }

  abbrev Ends : Server → Thread → (Thread × Server) → Type 0
  Ends s t (t', s') = Reach c kp parse_float reputation (only s t) (only s' t')

  further :
      {s s' s'' : Server} {t t' t'' : Thread}
      → Ends s t (t', s')
      → Move c kp parse_float reputation s' t' s'' t''
      → Ends s t (t'', s'')
  further r m = later r (pick [] [] m)

  -- The end of a call of `/verify` whose handler has the result `r`.
  abbrev verified : Verification → Reply VerifyResponse × Server → Thread × Server
  verified v r = (verify_done v r.0, r.1)

  judge_alone :
      (v : Verification) (entry : ChallengeEntry) (s t : Server)
      → Ends s (verify_load v) (verify_judge v entry, t)
      → Ends s (verify_load v) (
          verified v
            (judge_response c kp parse_float reputation v.now v.later v.http v.req entry t))
  judge_alone v entry s t r =
      elim (Failure.Result-cases (verdict_of c kp parse_float reputation v entry)) [
        | inr (x, refused) ↦
            subst (λ x. Ends s (verify_load v) (verified v x))
              (sym (
                judge-refused c kp parse_float reputation v.now v.later v.http v.req t entry x
                  refused))
              (further r (judge_refused refused))
        | inl (verdict, passed) ↦
            subst (λ x. Ends s (verify_load v) (verified v x))
              (sym (
                judge-passed c kp parse_float reputation v.now v.later v.http v.req t entry verdict
                  passed))
              (further (further r (judge_passed passed)) sign_reply)
      ]

  verify_alone :
      (v : Verification) (s : Server)
      → v.http.method ≡ codes "POST"
      → Ends s (verify_load v) (
          verified v
            (handle_verify c kp parse_float reputation v.now v.later v.http (some v.req) s))
  verify_alone v s post = elim (Option-cases (s.challenges v.req.challenge_id)) [
    | inl missing ↦
        subst (λ x. Ends s (verify_load v) (verified v x))
          (sym
            (verify-missing c kp parse_float reputation v.now v.later v.http v.req s post missing))
          (further start (load_missing missing))
    | inr (entry, there) ↦
        subst (λ x. Ends s (verify_load v) (verified v x))
          (sym (
            verify-found c kp parse_float reputation v.now v.later v.http v.req s entry post there))
          (judge_alone v entry s _ (further (further start (load_found there)) delete_challenge))
  ]

  redeemed_alone :
      (now : ℕ) (token : Text) (s : Server)
      → Ends s
          (redeem_load now token)
          (redeem_done token (redeem c kp now token s).0, (redeem c kp now token s).1)
  redeemed_alone now token s = elim (Option-cases (s.tokens (nonce_key token))) [
    | inr (entry, spent) ↦
        at_end (redeem-spent c kp now token s entry spent) (further start (token_spent spent))
    | inl fresh ↦ elim (Option-cases (decode_metadata (meta_of token))) [
      | inl bad ↦
          at_end (redeem-unnamed c kp now token s fresh bad)
            (further (further start (token_fresh fresh)) (check_unnamed bad))
      | inr (meta, named) ↦
          at_end (redeem-named c kp now token s meta fresh named)
            (further (further start (token_fresh fresh)) (check_named named))
    ]
  ]
    where
      at_end :
          {r : Reply SiteVerifyResponse × Server}
          → redeem c kp now token s ≡ r
          → Ends s (redeem_load now token) (redeem_done token r.0, r.1)
          → Ends s
              (redeem_load now token)
              (redeem_done token (redeem c kp now token s).0, (redeem c kp now token s).1)
      at_end e ends =
          subst (λ x. Ends s (redeem_load now token) (redeem_done token x.0, x.1)) (sym e) ends
