-- ===== src/Server/Overlap/Races.antt =====
-- Two calls that overlap between the look-up of an entry and its write.
use eu_trust_sdk.Base.{ℕ, ◌≡◌, ap, sym, ◌∙◌, Option, some, List, [], ◌∷◌, Text, true, codes}
use eu_trust_sdk.Crypto.{Crypto}
use eu_trust_sdk.Environment.{Float64}
use eu_trust_sdk.Api.Metadata.{TrustMetadata}
use eu_trust_sdk.Rsa.Keys.{KeyPair}
use eu_trust_sdk.Server.{Server, Reply, json}
use eu_trust_sdk.Server.Issue.{VerifyResponse, handle_verify, site_key_of}
use eu_trust_sdk.Server.Issue.Signs.{IsSigned, handle_verify_iff, sign-good}
use eu_trust_sdk.Server.Redeem.{SiteVerifyResponse, accepted, redeem, check_signature}
use eu_trust_sdk.Server.Redeem.Accepts.{
  succeeded, IsSpendable, redeem-success, check_signature-signed,
}
use eu_trust_sdk.Server.Overlap.{
  Verification, Thread, verify_load, verify_delete, verify_judge, verify_sign, verify_done,
  redeem_load, redeem_check, redeem_done, signing, load_found, delete_challenge, judge_passed,
  sign_reply, token_fresh, check_named, System, pick, Reach, start, later,
}

module _ (c : Crypto) (kp : KeyPair) (parse_float : Text → Option Float64)
    (reputation : Text → ℕ) where
  -- The reply of `handleVerify` to a call on its own.
  abbrev pub alone : Verification → Server → Reply VerifyResponse
  alone v s = (handle_verify c kp parse_float reputation v.now v.later v.http (some v.req) s).0

  -- Once a thread is past the look-up, its reply does not depend on the state.
  signs_anywhere :
      (v : Verification) (s t : Server) (resp : VerifyResponse)
      (h : IsSigned c kp parse_float reputation v.now v.req s resp)
      → (signing c kp parse_float reputation v h.entry t).0 ≡ json resp
  signs_anywhere v s t resp h =
      sign-good c kp parse_float reputation v.req.blinded_msg h.entry.predicted_meta
        (site_key_of v.http) t h.msg h.sig h.decoded h.signed
      ∙ ap json (sym h.reply)

  abbrev after : Server → List Thread → System
  after s ts = record { shared = s; threads = ts }

  module _ (v w : Verification) (s : Server) (resp resp' : VerifyResponse) where
    both-Reach :
        (h : IsSigned c kp parse_float reputation v.now v.req s resp)
        (h' : IsSigned c kp parse_float reputation w.now w.req s resp')
        → (t t' : Server) × (last : Server) × Reach c kp parse_float reputation
            (after s (verify_load v ∷ verify_load w ∷ []))
            (after last (
              verify_done v (signing c kp parse_float reputation v h.entry t).0
              ∷ verify_done w (signing c kp parse_float reputation w h'.entry t').0
              ∷ []))
    both-Reach h h' =
        let r1 = later start (pick [] (verify_load w ∷ []) (load_found h.found)) in
        let r2 = later r1 (pick (verify_delete v h.entry ∷ []) [] (load_found h'.found)) in
        let r3 = later r2 (pick [] (verify_delete w h'.entry ∷ []) delete_challenge) in
        let r4 = later r3 (pick (verify_judge v h.entry ∷ []) [] delete_challenge) in
        let r5 = later r4 (pick [] (verify_judge w h'.entry ∷ []) (judge_passed h.passed)) in
        let r6 = later r5 (pick (verify_sign v h.entry ∷ []) [] (judge_passed h'.passed)) in
        let r7 = later r6 (pick [] (verify_sign w h'.entry ∷ []) sign_reply) in
        let r8 = later r7 (pick (verify_done v _ ∷ []) [] sign_reply) in (_, _, _, r8)

    -- A challenge can be used twice: of two POSTs to `/verify` that each would get a signature if they
    -- ran alone, for the same challenge or not, both get theirs when each looks its challenge up before
    -- either deletes it.
    pub verify_twice :
        v.http.method ≡ codes "POST"
        → w.http.method ≡ codes "POST"
        → alone v s ≡ json resp
        → alone w s ≡ json resp'
        → (last : Server) × Reach c kp parse_float reputation
            (after s (verify_load v ∷ verify_load w ∷ []))
            (after last (verify_done v (json resp) ∷ verify_done w (json resp') ∷ []))
    verify_twice post post' e e' =
        let h =
          (handle_verify_iff c kp parse_float reputation v.now v.later v.http v.req s resp post).0
            e in
        let h' =
          (handle_verify_iff c kp parse_float reputation w.now w.later w.http w.req s resp' post').0
            e' in
        let (t, t', last, r) = both-Reach h h' in
        (last, rw (signs_anywhere v s t resp h, signs_anywhere w s t' resp' h') at r)

  module _ (now now' : ℕ) (token : Text) (s : Server) where
    abbrev Leads : Server → List Thread → Type 0
    Leads t ts =
        Reach c kp parse_float reputation
          (after s (redeem_load now token ∷ redeem_load now' token ∷ [])) (after t ts)

    -- Nor does this reply.
    check_replies :
        (meta : TrustMetadata)
        → IsSpendable c kp token meta s
        → (at : ℕ) (t : Server) → (check_signature c kp at token meta t).0 ≡ accepted meta
    check_replies meta h at t =
        ap (λ (x : Reply SiteVerifyResponse × Server). x.0)
          (check_signature-signed c kp at token meta t h.signed)

    -- A token can be redeemed twice: where a call of `/siteverify` on its own would accept it, two calls
    -- both do when each looks the nonce up before either stores it.
    pub redeem_twice :
        succeeded (redeem c kp now token s).0 ≡ true
        → (meta : TrustMetadata) × (last : Server) × Reach c kp parse_float reputation
            (after s (redeem_load now token ∷ redeem_load now' token ∷ []))
            (after last
              (redeem_done token (accepted meta) ∷ redeem_done token (accepted meta) ∷ []))
    redeem_twice e =
        let (meta, h) = redeem-success c kp now token s e in
        let t : Server = (check_signature c kp now token meta s).1 in
        let replies = check_replies meta h in
        let r1 : Leads s (redeem_check now token ∷ redeem_load now' token ∷ []) =
          later start (pick [] (redeem_load now' token ∷ []) (token_fresh h.fresh)) in
        let r2 : Leads s (redeem_check now token ∷ redeem_check now' token ∷ []) =
          later r1 (pick (redeem_check now token ∷ []) [] (token_fresh h.fresh)) in
        let r3 : Leads t (
            redeem_done token (check_signature c kp now token meta s).0
            ∷ redeem_check now' token
            ∷ []) =
          later r2 (pick [] (redeem_check now' token ∷ []) (check_named h.named)) in
        let r4 : Leads (check_signature c kp now' token meta t).1 (
            redeem_done token (check_signature c kp now token meta s).0
            ∷ redeem_done token (check_signature c kp now' token meta t).0
            ∷ []) =
          later r3 (
            pick (redeem_done token (check_signature c kp now token meta s).0 ∷ []) []
              (check_named h.named)) in
        (meta, (check_signature c kp now' token meta t).1, rw (replies now s, replies now' t) at r4)
