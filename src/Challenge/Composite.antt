-- ===== src/Challenge/Composite.antt =====
-- internal/challenge/composite.go, with the payload and the response of pkg/api/types.go. Times
-- are nanoseconds since the Unix epoch.
pub mod Accepts
pub mod Scores
pub mod Honest
use eu_trust_sdk.Base.{
  ℕ, zero, suc, ◌+◌, ◌*◌, ◌^◌, Option, none, some, List, [], ◌∷◌, not, length, ltb, get_or, ◌==◌,
  text_eq, if◌then◌else◌, Text, ◌&&◌, Bool, true, false,
}
use eu_trust_sdk.Base.Assoc.{Assoc, lookup}
use eu_trust_sdk.Crypto.{Crypto}
use eu_trust_sdk.Double
use eu_trust_sdk.Environment.{probe_pool}
use eu_trust_sdk.Challenge.Error.{
  Result, ok, err, expired, id_mismatch, missing_hash_cash, ◌>>=◌, ◌>>◌,
}
use eu_trust_sdk.Challenge.Params.{ChallengeParams}
use eu_trust_sdk.Challenge.HashCash.{HashCashChallenge, new_hash_cash_challenge, verify_hash_cash}
use eu_trust_sdk.Challenge.Argon2.{Argon2Challenge, new_argon2_challenge, verify_argon2}

pub record ChallengePayload : Type 0 where
  pub challenge_id : Text
  -- `none` is a nil pointer.
  pub hash_cash : Option HashCashChallenge
  pub argon2 : Option Argon2Challenge
  pub probes : List Text
  pub expires_at : ℕ

pub record ChallengeResponse : Type 0 where
  pub challenge_id : Text
  pub hash_cash_solution : Text
  pub argon2_result : Text
  pub probe_results : Assoc Text

abbrev pub ProbeValidator : Type 0
ProbeValidator = Text → Text → ℕ

unfoldable pub probe_names : List ℕ → List Text
unfolding probe_pool
probe_names [] = []
probe_names (idx ∷ indices) =
    let rest = probe_names indices in
    if ltb idx (length probe_pool) then get_or probe_pool idx [] ∷ rest else rest

-- `New`, from the bytes that the two nonces are read from and the reading of the clock. Its argument
-- `temperatureBucket` is not used.
unfoldable pub new :
    ChallengeParams → Text → Option Text → Option Text → ℕ → Result ChallengePayload
unfolding probe_names
new params challenge_id hash_random argon2_random now = do
  hc ← new_hash_cash_challenge hash_random params.hash_cash_bits
  a2 ← new_argon2_challenge argon2_random params.argon2_memory params.argon2_iterations
  ok (record {
    challenge_id = challenge_id;
    hash_cash = some hc;
    argon2 = some a2;
    probes = probe_names params.probe_indices;
    expires_at = now + 120 * 10 ^ 9;
  })

-- The loop over the probes: the total score and how many were evaluated.
unfoldable pub sum_scores : Option ProbeValidator → Assoc Text → ℕ → ℕ → List Text → ℕ × ℕ
sum_scores validate_probe results total evaluated [] = (total, evaluated)
sum_scores validate_probe results total evaluated (name ∷ names) = elim (lookup name results) [
  | none ↦ sum_scores validate_probe results total evaluated names
  | some val ↦ elim validate_probe [
    | none ↦ sum_scores validate_probe results total evaluated names
    | some score ↦
        sum_scores validate_probe results (Double.add total (score name val)) (evaluated + 1) names
  ]
]

unfoldable pub mean_of : ℕ × ℕ → ℕ
mean_of (total, evaluated) =
    if ltb 0 evaluated then Double.div total (Double.of_int evaluated) else 0

unfoldable pub probe_score : List Text → Assoc Text → Option ProbeValidator → ℕ
unfolding mean_of
probe_score probes results validate_probe =
    if ltb 0 (length probes) && ltb 0 (length results)
    then mean_of (sum_scores validate_probe results 0 0 probes)
    else 0

abbrev is_empty : Text → Bool
is_empty [] = true
is_empty (_ ∷ _) = false

module _ (c : Crypto) where
  -- The class after the hashcash part.
  unfoldable pub hash_cash_class : Option HashCashChallenge → Text → Result ℕ
  hash_cash_class none solution = ok 0
  hash_cash_class (some hc) solution =
      if is_empty solution then err missing_hash_cash else verify_hash_cash c hc solution >> ok 1

  -- The class after the Argon2 part.
  unfoldable pub argon2_class : Option Argon2Challenge → Text → ℕ → Result ℕ
  argon2_class none result class = ok class
  argon2_class (some a2) result class =
      if is_empty result then ok class else verify_argon2 c a2 result >> ok 2

  -- `Verify`: the class and the anomaly score.
  unfoldable pub verify :
      ℕ → ChallengePayload → ChallengeResponse → Option ProbeValidator → Result (ℕ × ℕ)
  verify now payload resp validate_probe =
      if ltb payload.expires_at now
      then err expired
      else if not (text_eq resp.challenge_id payload.challenge_id)
      then err id_mismatch
      else do
        class ← hash_cash_class payload.hash_cash resp.hash_cash_solution
        reached ← argon2_class payload.argon2 resp.argon2_result class
        ok (reached, probe_score payload.probes resp.probe_results validate_probe)
