-- ===== src/Server/Calls/Stored.antt =====
-- What every challenge is like that the server has stored.
use eu_trust_sdk.Base.{ℕ, ◌≤◌, ◌≡◌, refl, subst, sym, Option, inl, inr, Text, List, [], ◌∷◌, All}
use eu_trust_sdk.Crypto.{Crypto}
use eu_trust_sdk.Environment.{Float64}
use eu_trust_sdk.Rsa.Keys.{KeyPair}
use eu_trust_sdk.Server.{Server, HttpRequest}
use eu_trust_sdk.Server.Issue.{VerifyRequest, handle_verify}
use eu_trust_sdk.Server.Issue.Outcome.{verify-Outcome}
use eu_trust_sdk.Server.Redeem.Outcome as Redeem
use eu_trust_sdk.Server.Redeem.Outcome.{siteverify-Outcome}
use eu_trust_sdk.Server.Calls.{Call, challenge, verify, siteverify, cleanup, step, run}
use eu_trust_sdk.Server.Calls.Entries.{
  IsSound, remove-IsSound, clean-IsSound, handle_challenge-IsSound,
}

-- The clock does not run back within a call of `/challenge`.
abbrev pub IsOrdered : Call → Type 0
IsOrdered (challenge clock random r) = clock 3 ≤ clock 5
IsOrdered _ = Unit {0}

module _ (c : Crypto) (kp : KeyPair) where
  Outcome-challenges :
      (now : ℕ) (s s' : Server) → Redeem.Outcome c kp now s s' → s'.challenges ≡ s.challenges
  Outcome-challenges now s s' (inl same) = rw same refl
  Outcome-challenges now s s' (inr (token, fresh, spent)) = rw spent refl

module _ (c : Crypto) (kp : KeyPair) (parse_float : Text → Option Float64)
    (reputation : Text → ℕ) where
  verify-IsSound :
      (now later : ℕ) (r : HttpRequest) (body : Option VerifyRequest) (s : Server)
      → IsSound s.challenges
      → IsSound (handle_verify c kp parse_float reputation now later r body s).1.challenges
  verify-IsSound now later r body s sound =
      elim (verify-Outcome c kp parse_float reputation now later r body s) [
        | inl same ↦ rw same sound
        | inr (id, (store, gone)) ↦ rw gone (remove-IsSound s.challenges id sound)
      ]

  step-IsSound :
      (call : Call) (s : Server)
      → IsOrdered call
      → IsSound s.challenges
      → IsSound (step c kp parse_float reputation call s).challenges
  unfolding step
  step-IsSound (challenge clock random r) s ordered sound =
      handle_challenge-IsSound c kp parse_float reputation clock random r s ordered sound
  step-IsSound (verify now later r body) s ordered sound = verify-IsSound now later r body s sound
  step-IsSound (siteverify now method body) s ordered sound =
      subst IsSound
        (sym (Outcome-challenges c kp now s _ (siteverify-Outcome c kp now method body s))) sound
  step-IsSound (cleanup now) s ordered sound = clean-IsSound now s sound

  -- From a state whose stored challenges all are as `/challenge` makes them, any calls lead to such a
  -- state, as long as the clock does not run back within a call: each has both puzzles, is stored
  -- under its own name, carries the encoding of metadata of class 2 and device 1 with one of the four
  -- buckets, and is kept until its own expiry at least.
  pub run-IsSound :
      (calls : List Call) (s : Server)
      → All IsOrdered calls
      → IsSound s.challenges
      → IsSound (run c kp parse_float reputation calls s).challenges
  unfolding run
  run-IsSound [] s ordered sound = sound
  run-IsSound (call ∷ calls) s ordered sound =
      run-IsSound calls (step c kp parse_float reputation call s) ordered.1
        (step-IsSound call s ordered.0 sound)
