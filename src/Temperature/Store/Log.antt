-- ===== src/Temperature/Store/Log.antt =====
-- The store against the log of its calls: what `Score` returns is a function of the calls that were
-- made, whatever was cleaned up in between.
mod Fields
pub mod Refines
use Prim.Native.Nat.{ℕ, min}
use eu_trust_sdk.Base.{
  ◌+◌, ◌-◌, ◌*◌, ◌/◌, ◌≤◌, ◌≡◌, refl, ap, sym, ◌∙◌, Bool, true, false, Option, none, some, List, [],
  ◌∷◌, ◌++◌, arith, length, ltb, text_eq, text_eq_iff, Option-cases, Bool-cases, inl, inr,
  if◌then◌else◌, ◌&&◌, Text,
}
use eu_trust_sdk.Base.Map
use eu_trust_sdk.Base.Map.{Map}
use eu_trust_sdk.Temperature.Store.{subnet_key}
use eu_trust_sdk.Temperature.Store.{
  Store, new_store, window_duration, append_to, count_after, last_twenty, fails, probe_signal,
  min100, weighted, score_to_bucket, cleanup, clean_map, record_token_burn, record_event,
  record_probe, score,
}
use eu_trust_sdk.Temperature.Store.Counts.{get-append_to, count_after-append, count_after-clean_map}
use eu_trust_sdk.Temperature.Store.History.{
  length-last_twenty, last_twenty-append, probe_signal-exact,
}

-- The calls that change the store.
pub data Event : Type 0 where
  requested : Text → Option Bool → Event
  burned : Text → Event
  cleaned : Event

-- The calls with their clock readings, the latest first.
abbrev pub Log : Type 0
Log = List (ℕ × Event)

-- No reading is later than one that comes after it, nor than `now`.
abbrev pub IsOrdered : ℕ → Log → Type 0
IsOrdered now [] = Unit
IsOrdered now ((t, e) ∷ log) = (t ≤ now) × IsOrdered t log

-- The requests after the cutoff whose address has the key `k`.
unfoldable pub visits : (Text → Text) → Text → ℕ → Log → ℕ
visits key k cutoff [] = 0
visits key k cutoff ((t, requested ip _) ∷ log) =
    visits key k cutoff log + (if text_eq (key ip) k && ltb cutoff t then 1 else 0)
visits key k cutoff ((t, burned _) ∷ log) = visits key k cutoff log
visits key k cutoff ((t, cleaned) ∷ log) = visits key k cutoff log

unfoldable pub burns : Text → Log → ℕ
burns k [] = 0
burns k ((t, requested _ _) ∷ log) = burns k log
burns k ((t, burned j) ∷ log) = burns k log + (if text_eq j k then 1 else 0)
burns k ((t, cleaned) ∷ log) = burns k log

-- Every probe result of the address, the first one first.
unfoldable pub results : Text → Log → List Bool
results k [] = []
results k ((t, requested ip none) ∷ log) = results k log
results k ((t, requested ip (some passed)) ∷ log) =
    if text_eq ip k then results k log ++ passed ∷ [] else results k log
results k ((t, burned _) ∷ log) = results k log
results k ((t, cleaned) ∷ log) = results k log

unfoldable pub step : ℕ → Event → Store → Store
unfolding record_event record_token_burn cleanup
step t (requested ip passed) s = record_event t ip passed s
step t (burned k) s = record_token_burn k s
step t cleaned s = cleanup t s

unfoldable pub run : Log → Store
run [] = new_store
run ((t, e) ∷ log) = step t e (run log)

-- What `Score` is to return: a weighted mean of five signals of at most 100 each, out of the counts of
-- the log. Five points a request of the address, two a request of its subnet, a point for ten burns,
-- the exact percentage of failed probes and the reputation weigh 30, 20, 20, 10 and 20 hundredths.
module _ (reputation : Text → ℕ) where
  unfoldable pub expected_score : ℕ → Text → Text → Log → ℕ
  expected_score now ip site_key log =
      let recent = last_twenty (results ip log) in
      let own = visits (λ j. j) ip (now - window_duration) log in
      let neighbours = visits subnet_key (subnet_key ip) (now - window_duration) log in
      (min 100 (5 * own) * 30
        + min 100 (2 * neighbours) * 20
        + min 100 (burns site_key log / 10) * 20
        + 100 * fails recent / length recent * 10
        + reputation ip * 20)
      / 100
