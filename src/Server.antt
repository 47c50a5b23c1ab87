-- ===== src/Server.antt =====
-- cmd/server/main.go: the state of the server, its requests and replies, and its cleanup. A call of
-- a handler runs as one step here; Go's server runs them side by side, which `Overlap` models. Times are nanoseconds since the Unix epoch.
mod Cleanup
pub mod Calls
pub mod Routes
pub mod DevKey
pub mod Overlap
pub mod Honest
pub mod Session
pub mod Issue
pub mod Redeem
use eu_trust_sdk.Base.{
  ℕ, zero, suc, ◌+◌, ◌*◌, ◌^◌, Bool, true, false, Option, none, some, List, [], ◌∷◌, codes, length,
  take, get_or, ltb, ◌==◌, text_eq, if◌then◌else◌, Text,
}
use eu_trust_sdk.Base.Map
use eu_trust_sdk.Base.Map.{Map}
use eu_trust_sdk.Base.Assoc.{Assoc}
use eu_trust_sdk.Challenge.Composite.{ChallengePayload}
use eu_trust_sdk.Temperature.Store.{Store, new_store}

pub record ChallengeEntry : Type 0 where
  pub payload : ChallengePayload
  -- The seven bytes that the client blinds its message with.
  pub predicted_meta : Text
  pub expiry : ℕ

pub record TokenEntry : Type 0 where
  pub expiry : ℕ

-- The fields of `server` that its handlers write.
pub record Server : Type 0 where
  pub challenges : Map ChallengeEntry
  pub tokens : Map TokenEntry
  pub temp_store : Store

abbrev pub new_server : Server
new_server = record { challenges = Map.empty; tokens = Map.empty; temp_store = new_store }

abbrev pub test_site_key : Text
test_site_key = codes "sk_test_sovereign"

abbrev pub sig_len : ℕ
sig_len = 256

abbrev pub meta_len : ℕ
meta_len = 7

abbrev pub nonce_len : ℕ
nonce_len = 8

abbrev pub token_len : ℕ
token_len = sig_len + meta_len + nonce_len

abbrev pub token_ttl : ℕ
token_ttl = 300 * 10 ^ 9

abbrev pub challenge_ttl : ℕ
challenge_ttl = 120 * 10 ^ 9

-- What the handlers read of a request besides its body.
pub record HttpRequest : Type 0 where
  pub method : Text
  -- The `sitekey` of the query, or the empty string.
  pub site_key : Text
  -- The `X-Forwarded-For` header, or the empty string.
  pub forwarded : Text
  pub remote_addr : Text

-- The part before the last colon of the first `i` bytes, or all of the host.
unfoldable pub before_colon : ℕ → Text → Text
before_colon zero host = host
before_colon (suc i) host =
    let rest = before_colon i host in if get_or host i 0 == b':' then take i host else rest

abbrev pub is_empty : Text → Bool
is_empty [] = true
is_empty (_ ∷ _) = false

unfoldable pub extract_ip : HttpRequest → Text
unfolding before_colon
extract_ip r =
    if is_empty r.forwarded then before_colon (length r.remote_addr) r.remote_addr else r.forwarded

-- A reply: `http.Error` by its status, a JSON body, or no reply where the handler panics, which
-- Go's server recovers from. The texts of the errors are left out.
pub data Reply (A : Type 0) : Type 0 where
  failed : ℕ → Reply A
  json : A → Reply A
  aborted : Reply A

-- `expiry.Before(now)` of each entry, by `sync.Map.Range`.
abbrev pub keep_challenge : ℕ → ChallengeEntry → Option ChallengeEntry
keep_challenge now entry = if ltb entry.expiry now then none else some entry

abbrev pub keep_token : ℕ → TokenEntry → Option TokenEntry
keep_token now entry = if ltb entry.expiry now then none else some entry

-- One round of `cleanupLoop`.
unfoldable pub clean : ℕ → Server → Server
clean now s = record s {
  challenges = λ k. elim (s.challenges k) [ none ↦ none | some entry ↦ keep_challenge now entry ];
  tokens = λ k. elim (s.tokens k) [ none ↦ none | some entry ↦ keep_token now entry ];
}
