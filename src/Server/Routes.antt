-- ===== src/Server/Routes.antt =====
-- The handler that cmd/server/main.go listens with: the routes of `main` behind `corsMiddleware`.
pub mod Runs
use eu_trust_sdk.Base.{
  some, none, ℕ, Option, List, [], ◌∷◌, codes, take, drop, text_eq, if◌then◌else◌, Text,
}
use eu_trust_sdk.Crypto.{Crypto}
use eu_trust_sdk.Environment.{Float64}
use eu_trust_sdk.Rsa.Keys.{KeyPair}
use eu_trust_sdk.Temperature.Reputation.{reputation_of}
use eu_trust_sdk.Server.{Server, HttpRequest, Reply, new_server}
use eu_trust_sdk.Server.DevKey.{load_dev_key}
use eu_trust_sdk.Server.Issue.{
  Randomness, ChallengeReply, VerifyRequest, VerifyResponse, handle_challenge, handle_verify,
}
use eu_trust_sdk.Server.Redeem.{
  SiteVerifyRequest, SiteVerifyResponse, Body, form, json_text, handle_siteverify,
}

-- A request, with what its handler reads from the clock and from crypto/rand. The path is in the
-- form that `ServeMux` cleans paths to: it redirects a request for any other.
pub record Incoming : Type 0 where
  pub path : Text
  pub http : HttpRequest
  pub content_type : Text
  -- The values of the form, or the empty string.
  pub form_token : Text
  pub form_secret : Text
  -- The body as JSON of either kind, where `none` is a decoding error.
  pub verify_json : Option VerifyRequest
  pub siteverify_json : Option SiteVerifyRequest
  pub clock : ℕ → ℕ
  pub random : Randomness

pub data Answer : Type 0 where
  challenge_reply : Reply ChallengeReply → Answer
  verify_reply : Reply VerifyResponse → Answer
  siteverify_reply : Reply SiteVerifyResponse → Answer
  -- A file of the directory `widget`, by its path there.
  widget_file : Text → Answer
  -- From `/widget` to `/widget/`.
  redirect not_found : Answer
  no_content : Answer

-- The headers that the middleware sets, and the rest.
pub record Response : Type 0 where
  pub headers : List (Text × Text)
  pub answer : Answer

abbrev pub cors_headers : List (Text × Text)
cors_headers =
    (codes "Access-Control-Allow-Origin", codes "*")
    ∷ (codes "Access-Control-Allow-Methods", codes "GET, POST, OPTIONS")
    ∷ (codes "Access-Control-Allow-Headers", codes "Content-Type")
    ∷ []

-- What `handleSiteverify` reads its request from.
unfoldable pub body_of : Incoming → Body
body_of i =
    if text_eq i.content_type (codes "application/x-www-form-urlencoded")
    then form i.form_token i.form_secret
    else json_text i.siteverify_json

-- `corsMiddleware`
unfoldable pub cors_middleware :
    (Incoming → Server → Answer × Server) → Incoming → Server → Response × Server
cors_middleware next i s =
    if text_eq i.http.method (codes "OPTIONS")
    then (record { headers = cors_headers; answer = no_content }, s)
    else let (answer, after) = next i s in
      (record { headers = cors_headers; answer = answer }, after)

module _ (c : Crypto) (kp : KeyPair) (parse_float : Text → Option Float64)
    (reputation : Text → ℕ) where
  abbrev tagged {ℓ} : {A : Type ℓ} → (A → Answer) → A × Server → Answer × Server
  tagged tag (reply, s) = (tag reply, s)

  -- The handlers of `mux`.
  unfoldable pub mux : Incoming → Server → Answer × Server
  unfolding body_of
  mux i s =
      if text_eq i.path (codes "/challenge")
      then tagged challenge_reply
          (handle_challenge c kp parse_float reputation i.clock i.random i.http s)
      else if text_eq i.path (codes "/verify")
      then tagged verify_reply
          (handle_verify c kp parse_float reputation (i.clock 0) (i.clock 1) i.http i.verify_json s)
      else if text_eq i.path (codes "/siteverify")
      then tagged siteverify_reply (handle_siteverify c kp (i.clock 0) i.http.method (body_of i) s)
      else if text_eq (take 8 i.path) (codes "/widget/")
      then (widget_file (drop 8 i.path), s)
      else if text_eq i.path (codes "/widget")
      then (redirect, s)
      else (not_found, s)

  -- The handler that the server listens with.
  unfoldable pub serve : Incoming → Server → Response × Server
  unfolding cors_middleware mux
  serve i s = cors_middleware mux i s

-- `main`: the handler that it listens with, and the state that it starts from. `none` is the panic of a
-- key that does not load.
unfoldable pub main :
    Crypto → (Text → Option Float64) → Option ((Incoming → Server → Response × Server) × Server)
unfolding load_dev_key
main c parse_float = elim load_dev_key [
  | none ↦ none
  | some kp ↦ some (serve c kp parse_float reputation_of, new_server)
]
