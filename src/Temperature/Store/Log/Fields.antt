-- ===== src/Temperature/Store/Log/Fields.antt =====
-- Each field of the store after a run, as a function of the log.
use Prim.Native.Nat.{ℕ}
use eu_trust_sdk.Base.{
  ◌+◌, ◌-◌, ◌≤◌, ◌≡◌, refl, ap, ◌∙◌, Bool, true, false, none, some, List, [], ◌∷◌, ◌++◌, arith, ltb,
  text_eq, text_eq_iff, if◌then◌else◌, ◌&&◌, Text,
}
use eu_trust_sdk.Base.Map
use eu_trust_sdk.Base.Map.{Map}
use eu_trust_sdk.Temperature.Store.{subnet_key}
use eu_trust_sdk.Temperature.Store.{window_duration, count_after, last_twenty, record_probe}
use eu_trust_sdk.Temperature.Store.Counts.{count_after-append_to, count_after-clean_map}
use eu_trust_sdk.Temperature.Store.History.{last_twenty-append}
use eu_trust_sdk.Temperature.Store.Log.{
  requested, burned, cleaned, Log, IsOrdered, visits, burns, results, step, run,
}

burn_at_key :
    (m : Map ℕ) (j k : Text)
    → Map.get_or (Map.insert m j (Map.get_or m j 0 + 1)) k 0
      ≡ Map.get_or m k 0 + (if text_eq j k then 1 else 0)
burn_at_key m j k = Map.get_or-insert m j (Map.get_or m j 0 + 1) k 0 ∙ at_key (text_eq j k) refl
  where
    at_key :
        (b : Bool)
        → text_eq j k ≡ b
        → (if b then Map.get_or m j 0 + 1 else Map.get_or m k 0)
          ≡ Map.get_or m k 0 + (if b then 1 else 0)
    at_key true e = let e' : j ≡ k = (text_eq_iff j k).0 e in rw e'
    at_key false e = omega arith

probe_at_key :
    (m : Map (List Bool)) (j k : Text) (b : Bool)
    → Map.get_or (Map.insert m j (last_twenty (Map.get_or m j [] ++ b ∷ []))) k []
      ≡ (if text_eq j k then last_twenty (Map.get_or m k [] ++ b ∷ []) else Map.get_or m k [])
probe_at_key m j k b =
    Map.get_or-insert m j (last_twenty (Map.get_or m j [] ++ b ∷ [])) k []
    ∙ at_key (text_eq j k) refl
  where
    at_key :
        (same : Bool)
        → text_eq j k ≡ same
        → (if same then last_twenty (Map.get_or m j [] ++ b ∷ []) else Map.get_or m k [])
          ≡ (if same then last_twenty (Map.get_or m k [] ++ b ∷ []) else Map.get_or m k [])
    at_key true e = let e' : j ≡ k = (text_eq_iff j k).0 e in rw e'
    at_key false e = refl

one_more :
    (kept all : List Bool) (passed same : Bool)
    → kept ≡ last_twenty all
    → (if same then last_twenty (kept ++ passed ∷ []) else kept)
      ≡ last_twenty (if same then all ++ passed ∷ [] else all)
one_more kept all passed true e = rw e (last_twenty-append all passed)
one_more kept all passed false e = e

pub ip_requests-run :
    (log : Log) (k : Text) (now cutoff : ℕ)
    → IsOrdered now log
    → now - window_duration ≤ cutoff
    → count_after (Map.get_or (run log).ip_requests k []) cutoff ≡ visits (λ ip. ip) k cutoff log
unfolding run step visits
ip_requests-run [] k now cutoff h late = unfold count_after in refl
ip_requests-run ((t, requested ip passed) ∷ log) k now cutoff h late =
    count_after-append_to (run log).ip_requests ip t k cutoff
    ∙ ap (λ (n : ℕ). n + (if text_eq ip k && ltb cutoff t then 1 else 0))
        (ip_requests-run log k t cutoff h.1 (omega (arith, h.0)))
ip_requests-run ((t, burned j) ∷ log) k now cutoff h late =
    ip_requests-run log k t cutoff h.1 (omega (arith, h.0))
ip_requests-run ((t, cleaned) ∷ log) k now cutoff h late =
    count_after-clean_map (run log).ip_requests k (t - window_duration) cutoff (omega (arith, h.0))
    ∙ ip_requests-run log k t cutoff h.1 (omega (arith, h.0))

pub subnet_reqs-run :
    (log : Log) (k : Text) (now cutoff : ℕ)
    → IsOrdered now log
    → now - window_duration ≤ cutoff
    → count_after (Map.get_or (run log).subnet_reqs k []) cutoff ≡ visits subnet_key k cutoff log
unfolding run step visits
subnet_reqs-run [] k now cutoff h late = unfold count_after in refl
subnet_reqs-run ((t, requested ip passed) ∷ log) k now cutoff h late =
    let key = subnet_key ip in
    count_after-append_to (run log).subnet_reqs key t k cutoff
    ∙ ap (λ (n : ℕ). n + (if text_eq key k && ltb cutoff t then 1 else 0))
        (subnet_reqs-run log k t cutoff h.1 (omega (arith, h.0)))
subnet_reqs-run ((t, burned j) ∷ log) k now cutoff h late =
    subnet_reqs-run log k t cutoff h.1 (omega (arith, h.0))
subnet_reqs-run ((t, cleaned) ∷ log) k now cutoff h late =
    count_after-clean_map (run log).subnet_reqs k (t - window_duration) cutoff (omega (arith, h.0))
    ∙ subnet_reqs-run log k t cutoff h.1 (omega (arith, h.0))

pub token_burns-run : (log : Log) (k : Text) → Map.get_or (run log).token_burns k 0 ≡ burns k log
unfolding run step burns
token_burns-run [] k = refl
token_burns-run ((t, requested ip passed) ∷ log) k = token_burns-run log k
token_burns-run ((t, burned j) ∷ log) k =
    burn_at_key (run log).token_burns j k
    ∙ ap (λ (n : ℕ). n + (if text_eq j k then 1 else 0)) (token_burns-run log k)
token_burns-run ((t, cleaned) ∷ log) k = token_burns-run log k

pub probe_history-run :
    (log : Log) (k : Text) → Map.get_or (run log).probe_history k [] ≡ last_twenty (results k log)
unfolding run step results record_probe
probe_history-run [] k = unfold last_twenty in refl
probe_history-run ((t, requested ip none) ∷ log) k = probe_history-run log k
probe_history-run ((t, requested ip (some passed)) ∷ log) k =
    probe_at_key (run log).probe_history ip k passed
    ∙ one_more (Map.get_or (run log).probe_history k []) (results k log) passed (text_eq ip k)
        (probe_history-run log k)
probe_history-run ((t, burned j) ∷ log) k = probe_history-run log k
probe_history-run ((t, cleaned) ∷ log) k = probe_history-run log k
