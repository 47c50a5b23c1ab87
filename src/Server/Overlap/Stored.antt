-- ===== src/Server/Overlap/Stored.antt =====
-- What holds of signatures however calls overlap.
use eu_trust_sdk.Base.{ℕ, ◌≡◌, ◌≤◌, Option, some, Text}
use eu_trust_sdk.Base.Base64
use eu_trust_sdk.Crypto.{Crypto}
use eu_trust_sdk.Environment.{Float64}
use eu_trust_sdk.Challenge.Error as Failure
use eu_trust_sdk.Rsa.Error.{ok}
use eu_trust_sdk.Rsa.Keys.{KeyPair}
use eu_trust_sdk.Rsa.Protocol.{blind_sign}
use eu_trust_sdk.Server.{Server, ChallengeEntry, json}
use eu_trust_sdk.Server.Issue.{VerifyResponse}
use eu_trust_sdk.Server.Calls.Entries.{IsEntry}
use eu_trust_sdk.Rsa.Protocol
use eu_trust_sdk.Server.Overlap.{
  Verification, Thread, ask_record, ask_score, ask_store, verify_load, verify_delete, verify_judge,
  verify_sign, verify_done, redeem_load, cleaning, verdict_of,
}

-- A call that has not begun, whose clock does not run back.
abbrev pub IsStart : Thread → Type 0
IsStart (ask_record a) = a.clock 3 ≤ a.clock 5
IsStart (verify_load v) = Unit {0}
IsStart (redeem_load now token) = Unit {0}
IsStart (cleaning now) = Unit {0}
IsStart _ = ⊥

module _ (c : Crypto) (kp : KeyPair) (parse_float : Text → Option Float64)
    (reputation : Text → ℕ) where
  -- What a signature has been given for: a challenge as `/challenge` makes them, which the call names
  -- and has solved by the time at which it was judged, and a signature over the metadata stored with it.
  pub record IsGiven (v : Verification) (resp : VerifyResponse) : Type 0 where
    pub entry : ChallengeEntry
    pub made : IsEntry v.req.challenge_id entry
    pub verdict : ℕ × ℕ
    pub passed : verdict_of c kp parse_float reputation v entry ≡ Failure.ok verdict
    pub msg : Text
    pub decoded : Base64.decode v.req.blinded_msg ≡ some msg
    pub sig : Text
    pub signed : blind_sign c kp msg entry.predicted_meta ≡ ok sig
    pub reply : resp ≡ record {
      blind_signature = Base64.encode sig;
      metadata = Base64.encode entry.predicted_meta;
    }

  abbrev IsFine : Thread → Type 0
  IsFine (ask_record a) = a.clock 3 ≤ a.clock 5
  IsFine (ask_score a) = a.clock 3 ≤ a.clock 5
  IsFine (ask_store a bucket) = (a.clock 3 ≤ a.clock 5) × (bucket ≤ 3)
  IsFine (verify_delete v entry) = IsEntry v.req.challenge_id entry
  IsFine (verify_judge v entry) = IsEntry v.req.challenge_id entry
  IsFine (verify_sign v entry) =
      IsEntry v.req.challenge_id entry
      × ((verdict : ℕ × ℕ) × (verdict_of c kp parse_float reputation v entry ≡ Failure.ok verdict))
  IsFine (verify_done v reply) = (resp : VerifyResponse) → reply ≡ json resp → IsGiven v resp
  IsFine _ = Unit {0}
