-- ===== src/Tests/Scores.antt =====
-- Scores of probes and of addresses.
use eu_trust_sdk.Base.{
  ◌↔◌, ℕ, ◌+◌, ◌*◌, ◌/◌, ◌^◌, ◌≤◌, ◌≡◌, ◌≢◌, refl, arith, Bool, true, false, Option, some, none,
  List, [], ◌∷◌, codes, length, Text, text_eq,
}
use eu_trust_sdk.Base.Assoc.{lookup}
use eu_trust_sdk.Double
use eu_trust_sdk.Environment.{Float64, nan, fin, neg, less, judge, ProbeSpec, probe_specs, validate}
use eu_trust_sdk.Environment.Scores.{validate-nan, validate-suspicious}
use eu_trust_sdk.Challenge.Composite.{probe_score}
use eu_trust_sdk.Challenge.Composite.Scores.{probe_score-le}
use eu_trust_sdk.Temperature.Network.{v4, v6, contains}
use eu_trust_sdk.Temperature.Network.Parse.{parse_ip}
use eu_trust_sdk.Temperature.Reputation.{in_any, tor, cloud, reputation_of}
use eu_trust_sdk.Temperature.Reputation.Ranges.{IsInside, reputation_of_iff, reputation_of-le}
use eu_trust_sdk.Temperature.Store.{score, score_to_bucket, fails, probe_signal}
use eu_trust_sdk.Temperature.Network.Dotted.{dotted, decimal}
use eu_trust_sdk.Temperature.Store.Subnets.{subnet_key-eq_iff}
use eu_trust_sdk.Temperature.Store.{subnet_key}
use eu_trust_sdk.Temperature.Store.History.{probe_signal-exact}
use eu_trust_sdk.Temperature.Store.Log.{requested, burned, cleaned, Log, run, expected_score}
use eu_trust_sdk.Temperature.Store.Log.Refines.{score-run}

program : Unit {0}
unfolding lookup text_eq probe_specs Double.literal Double.one Double.of_int Double.round_div
    Double.bit_length Double.nearest
program = tt

-- Every result parses to NaN.
abbrev parse_float : Text → Option Float64
parse_float value = some nan

score_example :
    probe_score
      (codes "webgl_query" ∷ [])
      ((codes "webgl_query", codes "x") ∷ [])
      (some (λ name value. (validate parse_float name value).1))
    ≤ Double.one
score_example =
    probe_score-le parse_float (codes "webgl_query" ∷ []) ((codes "webgl_query", codes "x") ∷ [])
      (omega arith)

abbrev webgl : ProbeSpec
webgl = record {
  min_ms = fin (Double.literal 5 100);
  max_ms = fin (Double.of_int 500);
  suspicious_below = fin (Double.literal 2 100);
}

webgl_run : lookup (codes "webgl_query") probe_specs ≡ some webgl
unfolding program
webgl_run = refl

nan_example : validate parse_float (codes "webgl_query") (codes "NaN") ≡ (true, 0)
nan_example = validate-nan parse_float (codes "webgl_query") (codes "NaN") webgl webgl_run refl

in_order : Double.literal 2 100 ≤ Double.literal 5 100
unfolding program
in_order = omega arith

-- Every result parses to 0.01.
abbrev parse_low : Text → Option Float64
parse_low value = some (fin (Double.literal 1 100))

-- Below the bound and the minimum, and a negative one where the bound is negative.
low_run :
    (validate parse_low (codes "webgl_query") (codes "0.01") ≡ (false, Double.literal 8 10))
    × (validate (λ value. some (neg (Double.of_int 5))) (codes "audio_latency") (codes "-5")
        ≡ (false, Double.literal 9 10))
unfolding program validate judge less
low_run = (refl, refl)

suspicious_example :
    (validate parse_low (codes "webgl_query") (codes "0.01")).1 ≢ Double.literal 9 10
suspicious_example =
    validate-suspicious parse_low (codes "webgl_query") (codes "0.01") (Double.literal 5 100)
      (Double.literal 2 100) (fin (Double.of_int 500)) webgl_run in_order

abbrev history : List Bool
history = true ∷ false ∷ false ∷ []

signal_example : probe_signal history ≡ 100 * fails history / length history
signal_example = probe_signal-exact history (omega arith)

abbrev minute : ℕ
minute = 60 * 10 ^ 9

abbrev log : Log
log =
    (3 * minute, requested (codes "10.0.0.1") none)
    ∷ (2 * minute, cleaned)
    ∷ (minute + 7, burned (codes "k"))
    ∷ (minute, requested (codes "10.0.0.1") (some false))
    ∷ []

refines_example :
    (score reputation_of (3 * minute + 1) (codes "10.0.0.1") (codes "k") (run log) ≡ (
      expected_score reputation_of (3 * minute + 1) (codes "10.0.0.1") (codes "k") log,
      score_to_bucket
          (expected_score reputation_of (3 * minute + 1) (codes "10.0.0.1") (codes "k") log),
    ))
    × (expected_score reputation_of (3 * minute + 1) (codes "10.0.0.1") (codes "k") log ≤ 100)
refines_example =
    score-run reputation_of log (3 * minute + 1) (codes "10.0.0.1") (codes "k")
      (omega arith, (omega arith, (omega arith, (omega arith, tt))))
      (reputation_of-le (codes "10.0.0.1"))

abbrev exit_node : Text
exit_node = codes "185.220.101.7"

abbrev in_azure : Text
in_azure = codes "52.160.0.1"

ip_run : parse_ip exit_node ≡ some (v4 0xb9dc6507)
unfolding program parse_ip
ip_run = refl

mapped_run : parse_ip (codes "::ffff:185.220.101.7") ≡ some (v4 0xb9dc6507)
unfolding program parse_ip
mapped_run = refl

ip6_run : parse_ip (codes "2001:db8::1:0") ≡ some (v6 (0x20010db8 * 2 ^ 96 + 0x10000))
unfolding program parse_ip
ip6_run = refl

reputation_run :
    (reputation_of exit_node ≡ 100)
    × (reputation_of in_azure ≡ 80)
    × (reputation_of (codes "85.1.2.3") ≡ 0)
    × (reputation_of (codes "not-an-ip") ≡ 0)
unfolding program in_any tor contains reputation_of
reputation_run = (refl, refl, refl, refl)

reputation_example :
    ((reputation_of exit_node ≡ 100) ↔ IsInside tor 0xb9dc6507)
    × ((reputation_of exit_node ≡ 80) ↔ ((IsInside tor 0xb9dc6507 → ⊥) × IsInside cloud 0xb9dc6507))
    × (reputation_of exit_node ≤ 100)
reputation_example = reputation_of_iff exit_node 0xb9dc6507 ip_run

subnet_run :
    (dotted 10 0 7 255 ≡ codes "10.0.7.255")
    × (subnet_key (codes "10.0.7.255") ≡ codes "?0a0007.0/24")
    × (subnet_key (codes "::1") ≡ codes "::1")
unfolding program decimal subnet_key eu_trust_sdk.Base.Hex.encode
subnet_run = (refl, refl, refl)

subnet_example :
    (subnet_key (dotted 10 0 7 255) ≡ subnet_key (dotted 10 0 7 3))
    ↔ (◌≡◌ {A = ℕ} 10 10 × ◌≡◌ {A = ℕ} 0 0 × ◌≡◌ {A = ℕ} 7 7)
subnet_example =
    subnet_key-eq_iff 10 0 7 255 10 0 7 3
      (omega arith, (omega arith, (omega arith, (omega arith, tt))))
      (omega arith, (omega arith, (omega arith, (omega arith, tt))))
