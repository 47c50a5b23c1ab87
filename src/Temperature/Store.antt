-- ===== src/Temperature/Store.antt =====
-- internal/temperature/store.go. Times are nanoseconds since the Unix epoch, and every clock reading
-- is past its first minute. Each method takes the reading that its `time.Now()` makes, and runs
-- under the store's mutex, so a run of the store is a sequence of calls.
mod Counts
pub mod History
pub mod Log
pub mod Score
pub mod Subnets
use eu_trust_sdk.Base.{
  ℕ, ◌+◌, ◌-◌, ◌*◌, ◌/◌, ◌^◌, Bool, Option, none, some, List, [], ◌∷◌, ◌++◌, length, drop, ltb, leb,
  ◌==◌, codes, if◌then◌else◌, Text,
}
use eu_trust_sdk.Base.Map
use eu_trust_sdk.Base.Map.{Map}
use eu_trust_sdk.Double.Percent.{percent}
use eu_trust_sdk.Base.Bytes.{fill_bytes}
use eu_trust_sdk.Base.Hex
use eu_trust_sdk.Temperature.Network.{v4, v6}
use eu_trust_sdk.Temperature.Network.Parse.{parse_ip}

abbrev pub window_duration : ℕ
window_duration = 60 * 10 ^ 9

-- The fields of `Store` that its methods write.
pub record Store : Type 0 where
  pub ip_requests : Map (List ℕ)
  pub subnet_reqs : Map (List ℕ)
  pub token_burns : Map ℕ
  pub probe_history : Map (List Bool)

abbrev pub new_store : Store
new_store = record {
  ip_requests = Map.empty;
  subnet_reqs = Map.empty;
  token_burns = Map.empty;
  probe_history = Map.empty;
}

-- `m[k] = append(m[k], x)`
abbrev pub append_to : {A : Type 0} → Map (List A) → Text → A → Map (List A)
append_to m k x = Map.insert m k (Map.get_or m k [] ++ x ∷ [])

-- `if len(h) > 20 { h = h[len(h)-20:] }`
unfoldable pub last_twenty : List Bool → List Bool
last_twenty h = if ltb 20 (length h) then drop (length h - 20) h else h

-- The probe result that `Record` may carry.
unfoldable pub record_probe : Map (List Bool) → Text → Option Bool → Map (List Bool)
unfolding last_twenty
record_probe history ip none = history
record_probe history ip (some passed) =
    Map.insert history ip (last_twenty (Map.get_or history ip [] ++ passed ∷ []))

unfoldable pub min100 : ℕ → ℕ
min100 v = if ltb 100 v then 100 else v

-- `scoreToBucket`
unfoldable pub score_to_bucket : ℕ → ℕ
score_to_bucket score =
    if leb score 20 then 0 else if leb score 50 then 1 else if leb score 80 then 2 else 3

-- `t.After(cutoff)` counted.
unfoldable pub count_after : List ℕ → ℕ → ℕ
count_after [] cutoff = 0
count_after (t ∷ times) cutoff = (if ltb cutoff t then 1 else 0) + count_after times cutoff

unfoldable pub fails : List Bool → ℕ
fails [] = 0
fails (passed ∷ history) = (if passed then 0 else 1) + fails history

-- `int(probeFailRate(history) * 100)`
unfoldable pub probe_signal : List Bool → ℕ
unfolding fails
probe_signal history = if length history == 0 then 0 else percent (fails history) (length history)

-- The entries that `cleanup` keeps for one key, or the deletion of the key.
unfoldable pub keep_after : ℕ → List ℕ → List ℕ
keep_after cutoff [] = []
keep_after cutoff (t ∷ times) =
    let rest = keep_after cutoff times in if ltb cutoff t then t ∷ rest else rest

abbrev pub keep_entry : List ℕ → Option (List ℕ)
keep_entry [] = none
keep_entry (t ∷ times) = some (t ∷ times)

abbrev pub clean_map : ℕ → Map (List ℕ) → Map (List ℕ)
clean_map cutoff m k = elim (m k) [
  | none ↦ none
  | some times ↦ keep_entry (keep_after cutoff times)
]

unfoldable pub cleanup : ℕ → Store → Store
unfolding keep_after
cleanup now s = record s {
  ip_requests = clean_map (now - window_duration) s.ip_requests;
  subnet_reqs = clean_map (now - window_duration) s.subnet_reqs;
}

unfoldable pub record_token_burn : Text → Store → Store
record_token_burn site_key s = record s {
  token_burns = Map.insert s.token_burns site_key (Map.get_or s.token_burns site_key 0 + 1);
}

-- The weighted sum of the five signals, each from 0 to 100, before the last cap.
unfoldable pub weighted : ℕ → ℕ → ℕ → ℕ → ℕ → ℕ
unfolding min100
weighted ip_reqs subnet_reqs burns probes reputation =
    (min100 (ip_reqs * 5) * 30
      + min100 (subnet_reqs * 2) * 20
      + min100 (burns / 10) * 20
      + probes * 10
      + reputation * 20)
    / 100

-- `String` of the three-byte slice `v4[:3]` is `?` and its hex digits, since a slice of that length is
-- no address.
unfoldable pub subnet_key : Text → Text
unfolding fill_bytes parse_ip
subnet_key ip = elim (parse_ip ip) [
  | none ↦ ip
  | some (v4 a) ↦ codes "?" ++ Hex.encode (fill_bytes 3 (a / 256)) ++ codes ".0/24"
  | some (v6 _) ↦ ip
]

unfoldable pub record_event : ℕ → Text → Option Bool → Store → Store
unfolding record_probe subnet_key
record_event now ip probe_pass s = record s {
  ip_requests = append_to s.ip_requests ip now;
  subnet_reqs = append_to s.subnet_reqs (subnet_key ip) now;
  probe_history = record_probe s.probe_history ip probe_pass;
}

-- `Score`, with the reputation lookup: the score and its bucket.
unfoldable pub score : (Text → ℕ) → ℕ → Text → Text → Store → ℕ × ℕ
score reputation now ip site_key s =
    let cutoff = now - window_duration in
    let ip_reqs = count_after (Map.get_or s.ip_requests ip []) cutoff in
    let subnet_reqs = count_after (Map.get_or s.subnet_reqs (subnet_key ip) []) cutoff in
    let burns = Map.get_or s.token_burns site_key 0 in
    let probes = probe_signal (Map.get_or s.probe_history ip []) in
    let total = min100 (weighted ip_reqs subnet_reqs burns probes (reputation ip)) in
    (total, score_to_bucket total)
