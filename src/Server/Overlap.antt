-- ===== src/Server/Overlap.antt =====
-- Calls of the handlers that overlap: Go's server runs each in a goroutine of its own, and `sync.Map`
-- and the temperature store's mutex make single operations on the shared state atomic. A call is a
-- thread that goes on by one such operation at a time.
pub mod Alone
pub mod Races
pub mod Stored
use eu_trust_sdk.Base.{ℕ, ◌≡◌, ◌≢◌, ◌<◌, Option, none, some, List, [], ◌∷◌, ◌++◌, codes, ltb, Text}
use eu_trust_sdk.Base.Map
use eu_trust_sdk.Crypto.{Crypto}
use eu_trust_sdk.Double
use eu_trust_sdk.Environment.{Float64}
use eu_trust_sdk.Api.Metadata.{TrustMetadata, decode_metadata}
use eu_trust_sdk.Challenge.Error as Failure
use eu_trust_sdk.Challenge.Composite
use eu_trust_sdk.Rsa.Keys.{KeyPair}
use eu_trust_sdk.Temperature.Store.{record_event, score}
use eu_trust_sdk.Server.{
  Server, ChallengeEntry, TokenEntry, HttpRequest, Reply, failed, extract_ip, is_empty,
}
use eu_trust_sdk.Server.Issue.{
  Randomness, ChallengeReply, VerifyRequest, VerifyResponse, challenge_for, sign, answer, validator,
  site_key_of, with_event,
}
use eu_trust_sdk.Server.Redeem.{
  SiteVerifyResponse, invalid_response, duplicate, nonce_key, meta_of, check_signature,
}

-- A POST to `/verify` with a JSON body, and its two readings of the clock.
pub record Verification : Type 0 where
  pub now : ℕ
  pub later : ℕ
  pub http : HttpRequest
  pub req : VerifyRequest

-- A GET of `/challenge` with a site key.
pub record Asking : Type 0 where
  pub clock : ℕ → ℕ
  pub random : Randomness
  pub http : HttpRequest

-- Where a call stands, before its next access to the shared state.
pub data Thread : Type 0 where
  -- `handleChallenge`: before `Record`, before `Score`, and before `Store`
  ask_record ask_score : Asking → Thread
  ask_store : Asking → (bucket : ℕ) → Thread
  ask_done : Reply ChallengeReply → Thread
  -- `handleVerify`: before `Load`, before `Delete`, before `Record`, and before `RecordTokenBurn`
  verify_load : Verification → Thread
  verify_delete verify_judge verify_sign : Verification → ChallengeEntry → Thread
  verify_done : Verification → Reply VerifyResponse → Thread
  -- `handleSiteverify`, once it has the bytes of the token: before `Load`, and before `Store`
  redeem_load redeem_check : (now : ℕ) → (token : Text) → Thread
  redeem_done : (token : Text) → Reply SiteVerifyResponse → Thread
  -- a round of `cleanupLoop`, which comes to one entry after another: before it reads the next one, and
  -- before it deletes what stands under the key of one that it has seen to be expired
  cleaning : (now : ℕ) → Thread
  clean_challenge clean_token : (now : ℕ) → (key : Text) → Thread

pub record System : Type 0 where
  pub shared : Server
  pub threads : List Thread

module _ (c : Crypto) (kp : KeyPair) (parse_float : Text → Option Float64)
    (reputation : Text → ℕ) where
  abbrev pub verdict_of : Verification → ChallengeEntry → Failure.Result (ℕ × ℕ)
  verdict_of v entry =
      Composite.verify c v.now entry.payload (answer v.req)
        (some (validator c kp parse_float reputation))

  -- The end of `handleVerify` in a state.
  abbrev pub signing : Verification → ChallengeEntry → Server → Reply VerifyResponse × Server
  signing v entry s =
      sign c kp parse_float reputation v.req.blinded_msg entry.predicted_meta (site_key_of v.http) s

  abbrev pub offering : Asking → ℕ → Server → Reply ChallengeReply × Server
  offering a bucket s =
      challenge_for c kp parse_float reputation a.clock a.random (extract_ip a.http) bucket s

  -- One step of one thread.
  pub data Move (s : Server) : Thread → Server → Thread → Type 0 where
    record_request :
        {a : Asking}
        → Move s
            (ask_record a)
            (record s {
              temp_store = record_event (a.clock 0) (extract_ip a.http) none s.temp_store;
            })
            (ask_score a)
    take_score :
        {a : Asking}
        → Move s (ask_score a) s (
            ask_store a
              (score reputation (a.clock 1) (extract_ip a.http) a.http.site_key s.temp_store).1)
    store_challenge :
        {a : Asking} {bucket : ℕ}
        → Move s (ask_store a bucket) (offering a bucket s).1 (ask_done (offering a bucket s).0)
    load_missing :
        {v : Verification}
        → s.challenges v.req.challenge_id ≡ none
        → Move s (verify_load v) s (verify_done v (failed 400))
    load_found :
        {v : Verification} {entry : ChallengeEntry}
        → s.challenges v.req.challenge_id ≡ some entry
        → Move s (verify_load v) s (verify_delete v entry)
    delete_challenge :
        {v : Verification} {entry : ChallengeEntry}
        → Move s
            (verify_delete v entry)
            (record s { challenges = Map.remove s.challenges v.req.challenge_id })
            (verify_judge v entry)
    judge_refused :
        {v : Verification} {entry : ChallengeEntry} {x : Failure.Error}
        → verdict_of v entry ≡ Failure.err x
        → Move s (verify_judge v entry) s (verify_done v (failed 400))
    judge_passed :
        {v : Verification} {entry : ChallengeEntry} {verdict : ℕ × ℕ}
        → verdict_of v entry ≡ Failure.ok verdict
        → Move s
            (verify_judge v entry)
            (with_event c kp parse_float reputation v.later v.http
              (ltb verdict.1 (Double.literal 5 10))
              s)
            (verify_sign v entry)
    sign_reply :
        {v : Verification} {entry : ChallengeEntry}
        → Move s (verify_sign v entry) (signing v entry s).1 (verify_done v (signing v entry s).0)
    token_spent :
        {now : ℕ} {token : Text} {entry : TokenEntry}
        → s.tokens (nonce_key token) ≡ some entry
        → Move s (redeem_load now token) s (redeem_done token duplicate)
    token_fresh :
        {now : ℕ} {token : Text}
        → s.tokens (nonce_key token) ≡ none
        → Move s (redeem_load now token) s (redeem_check now token)
    check_unnamed :
        {now : ℕ} {token : Text}
        → decode_metadata (meta_of token) ≡ none
        → Move s (redeem_check now token) s (redeem_done token invalid_response)
    check_named :
        {now : ℕ} {token : Text} {meta : TrustMetadata}
        → decode_metadata (meta_of token) ≡ some meta
        → Move s
            (redeem_check now token)
            (check_signature c kp now token meta s).1
            (redeem_done token (check_signature c kp now token meta s).0)
    expired_challenge :
        {now : ℕ} {entry : ChallengeEntry} (id : Text)
        → s.challenges id ≡ some entry
        → entry.expiry < now
        → Move s (cleaning now) s (clean_challenge now id)
    drop_challenge :
        {now : ℕ} {id : Text}
        → Move s
            (clean_challenge now id)
            (record s { challenges = Map.remove s.challenges id })
            (cleaning now)
    expired_token :
        {now : ℕ} {entry : TokenEntry} (key : Text)
        → s.tokens key ≡ some entry
        → entry.expiry < now
        → Move s (cleaning now) s (clean_token now key)
    drop_token :
        {now : ℕ} {key : Text}
        → Move s
            (clean_token now key)
            (record s { tokens = Map.remove s.tokens key })
            (cleaning now)

  -- Any thread may go on.
  pub data Step : System → System → Type 0 where
    pick :
        {s s' : Server} {t t' : Thread} (before after : List Thread)
        → Move s t s' t'
        → Step
            (record { shared = s; threads = before ++ (t ∷ after) })
            (record { shared = s'; threads = before ++ (t' ∷ after) })

  pub data Reach (from : System) : System → Type 0 where
    start : Reach from from
    later : {here there : System} → Reach from here → Step here there → Reach from there
