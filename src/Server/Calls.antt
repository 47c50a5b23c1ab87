-- ===== src/Server/Calls.antt =====
-- Runs of the server: calls of its handlers and rounds of its cleanup, one after the other.
mod Tokens
pub mod Once
pub mod Entries
pub mod Stored
pub mod Signed
use eu_trust_sdk.Base.{ℕ, ◌≤◌, Option, List, [], ◌∷◌, All, Text}
use eu_trust_sdk.Crypto.{Crypto}
use eu_trust_sdk.Environment.{Float64}
use eu_trust_sdk.Rsa.Keys.{KeyPair}
use eu_trust_sdk.Server.{Server, HttpRequest, clean}
use eu_trust_sdk.Server.Issue.{Randomness, VerifyRequest, handle_challenge, handle_verify}
use eu_trust_sdk.Server.Redeem.{Body, handle_siteverify}

pub data Call : Type 0 where
  challenge : (ℕ → ℕ) → Randomness → HttpRequest → Call
  verify : ℕ → ℕ → HttpRequest → Option VerifyRequest → Call
  siteverify : ℕ → Text → Body → Call
  cleanup : ℕ → Call

-- A round of the cleanup is not later than `t`; the other calls may be.
abbrev pub IsBefore : ℕ → Call → Type 0
IsBefore t (cleanup now) = now ≤ t
IsBefore t _ = Unit {0}

module _ (c : Crypto) (kp : KeyPair) (parse_float : Text → Option Float64)
    (reputation : Text → ℕ) where
  unfoldable pub step : Call → Server → Server
  step (challenge clock random r) s =
      (handle_challenge c kp parse_float reputation clock random r s).1
  step (verify now later r body) s =
      (handle_verify c kp parse_float reputation now later r body s).1
  step (siteverify now method body) s = (handle_siteverify c kp now method body s).1
  step (cleanup now) s = clean now s

  -- The calls in the order in which they run.
  unfoldable pub run : List Call → Server → Server
  run [] s = s
  run (call ∷ calls) s = run calls (step call s)
