-- ===== src/Temperature/Store/Log/Refines.antt =====
-- `Score` after any run of the store is the score of its log.
use Prim.Native.Nat.{ℕ}
use native.Mathlib.Nat.{le_refl}
use eu_trust_sdk.Base.{◌-◌, ◌≤◌, ◌≡◌, ap, subst, ◌∙◌, ◌*◌, ◌/◌, [], length, Text}
use eu_trust_sdk.Base.Map
use eu_trust_sdk.Base.Map.{Map}
use eu_trust_sdk.Temperature.Store.{subnet_key}
use eu_trust_sdk.Temperature.Store.{
  Store, window_duration, count_after, last_twenty, fails, probe_signal, min100, weighted,
  score_to_bucket, score,
}
use eu_trust_sdk.Temperature.Store.History.{
  percent-le, fails-le, length-last_twenty, probe_signal-exact,
}
use eu_trust_sdk.Temperature.Store.Score.{weighted_lem, weighted-le, min100_of_le}
use eu_trust_sdk.Temperature.Store.Log.{Log, IsOrdered, run, expected_score, results, visits, burns}
use eu_trust_sdk.Temperature.Store.Log.Fields.{
  ip_requests-run, subnet_reqs-run, token_burns-run, probe_history-run,
}

-- The sum that `score` caps.
score_sum : (Text → ℕ) → ℕ → Text → Text → Store → ℕ
score_sum reputation now ip site_key s =
    let cutoff = now - window_duration in
    weighted (count_after (Map.get_or s.ip_requests ip []) cutoff)
      (count_after (Map.get_or s.subnet_reqs (subnet_key ip) []) cutoff)
      (Map.get_or s.token_burns site_key 0) (probe_signal (Map.get_or s.probe_history ip []))
      (reputation ip)

-- After any calls with clock readings in order, cleanups among them, `Score` returns the weighted
-- score of the requests of the last minute, of all the burns and of the last twenty probe results
-- in the log, at most 100, and its bucket, given reputations of at most 100.
pub score-run :
    (reputation : Text → ℕ) (log : Log) (now : ℕ) (ip site_key : Text)
    → IsOrdered now log
    → reputation ip ≤ 100
    → (score reputation now ip site_key (run log) ≡ (
      expected_score reputation now ip site_key log,
      score_to_bucket (expected_score reputation now ip site_key log),
    ))
      × (expected_score reputation now ip site_key log ≤ 100)
unfolding score score_sum expected_score
score-run reputation log now ip site_key h rep =
    let recent = last_twenty (results ip log) in
    let counted : ℕ =
      weighted (visits (λ j. j) ip (now - window_duration) log)
        (visits subnet_key (subnet_key ip) (now - window_duration) log) (burns site_key log)
        (100 * fails recent / length recent) (reputation ip) in
    let same : score_sum reputation now ip site_key (run log) ≡ counted = simp (
      ip_requests-run log ip now (now - window_duration) h (le_refl _),
      subnet_reqs-run log (subnet_key ip) now (now - window_duration) h (le_refl _),
      token_burns-run log site_key,
      probe_history-run log ip,
      probe_signal-exact recent (length-last_twenty (results ip log)),
    ) in
    let expected : counted ≡ expected_score reputation now ip site_key log =
      weighted_lem _ _ _ _ _ in
    let small : expected_score reputation now ip site_key log ≤ 100 =
      subst (λ t. t ≤ 100) expected
        (weighted-le _ _ _ _ _ (percent-le (fails recent) (length recent) (fails-le recent)) rep) in
    let capped : min100 (score_sum reputation now ip site_key (run log))
        ≡ expected_score reputation now ip site_key log =
      ap min100 (same ∙ expected) ∙ min100_of_le _ small in
    (λ i. (capped i, score_to_bucket (capped i)), small)
