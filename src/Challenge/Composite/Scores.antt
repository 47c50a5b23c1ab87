-- ===== src/Challenge/Composite/Scores.antt =====
-- The score that `Verify` returns.
use eu_trust_sdk.Base.{
  ℕ, zero, suc, ◌+◌, ◌*◌, ◌^◌, ◌≤◌, ◌<◌, ◌≡◌, arith, true, ◌&&◌, Option, some, List, [], ◌∷◌,
  length, ltb, Bool-cases, Option-cases, inl, inr, Text,
}
use eu_trust_sdk.Base.Assoc.{Assoc, lookup}
use eu_trust_sdk.Double
use eu_trust_sdk.Double.Bounds.{add-le, mean-le}
use eu_trust_sdk.Environment.{Float64, validate}
use eu_trust_sdk.Environment.Scores.{validate-le}
use eu_trust_sdk.Challenge.Composite.{ProbeValidator, sum_scores, mean_of, probe_score}

sum_scores-le :
    (validate_probe : ProbeValidator) (results : Assoc Text) (names : List Text) (total k : ℕ)
    → ((name value : Text) → validate_probe name value ≤ Double.one)
    → total ≤ k * Double.one
    → k + length names < 2 ^ 53
    → ((sum_scores (some validate_probe) results total k names).0
        ≤ (sum_scores (some validate_probe) results total k names).1 * Double.one)
      × ((sum_scores (some validate_probe) results total k names).1 < 2 ^ 53)
unfolding sum_scores
sum_scores-le validate_probe results [] total k most h small = (h, omega arith)
sum_scores-le validate_probe results (name ∷ names) total k most h small =
    elim (Option-cases (lookup name results)) [
      | inl missing ↦
          rw (missing, sum_scores)
            (sum_scores-le validate_probe results names total k most h (omega arith))
      | inr (value, there) ↦
          rw (there, sum_scores)
            (sum_scores-le validate_probe results names
              (Double.add total (validate_probe name value)) (k + 1) most
              (omega (
                arith,
                add-le total (validate_probe name value) k (omega arith) h (most name value),
              ))
              (omega arith))
    ]

mean_of-le : (total k : ℕ) → total ≤ k * Double.one → k < 2 ^ 53 → mean_of (total, k) ≤ Double.one
unfolding mean_of
mean_of-le total zero h small = omega arith
mean_of-le total (suc k) h small =
    let some_asked : ltb 0 (suc k) ≡ true = ground arith in
    rw some_asked (mean-le total (suc k) (omega arith) small h)

-- The score of a response that fewer than 2 ^ 53 probes were asked of is at most 1, whatever
-- numbers its results parse to and after all the rounding.
pub probe_score-le :
    (parse_float : Text → Option Float64) (probes : List Text) (results : Assoc Text)
    → length probes < 2 ^ 53
    → probe_score probes results (some (λ name value. (validate parse_float name value).1))
      ≤ Double.one
unfolding probe_score
probe_score-le parse_float probes results small =
    let v = λ (name value : Text). (validate parse_float name value).1 in
    let (below, few) =
      sum_scores-le v results probes 0 0 (validate-le parse_float) (omega arith) (omega arith) in
    let mean = mean_of-le _ _ below few in
    elim (Bool-cases (ltb 0 (length probes) && ltb 0 (length results))) [
      | inl asked ↦ rw asked mean
      | inr none_asked ↦ rw none_asked (omega arith)
    ]
