-- ===== src/Environment.antt =====
-- internal/environment/probes.go: the validation of the environment probes.
pub mod Scores
use eu_trust_sdk.Base.{
  ℕ, Bool, true, false, ◌||◌, Option, none, some, List, [], ◌∷◌, codes, length, ltb, if◌then◌else◌,
  Text,
}
use eu_trust_sdk.Base.Assoc.{Assoc, lookup}
use eu_trust_sdk.Double

-- Every value of Go's float64: a finite one by its sign and its multiple of 2 ^ -1074.
pub data Float64 : Type 0 where
  nan minus_inf plus_inf : Float64
  neg fin : ℕ → Float64

-- `x < y`; an order with NaN is false, and the two zeros are equal.
unfoldable pub less : Float64 → Float64 → Bool
less nan y = false
less minus_inf nan = false
less minus_inf minus_inf = false
less minus_inf y = true
less plus_inf y = false
less (neg m) nan = false
less (neg m) minus_inf = false
less (neg m) plus_inf = true
less (neg m) (neg n) = ltb n m
less (neg m) (fin n) = ltb 0 m || ltb 0 n
less (fin m) plus_inf = true
less (fin m) (fin n) = ltb m n
less (fin m) (neg n) = false
less (fin m) y = false

pub record ProbeSpec : Type 0 where
  pub min_ms : Float64
  pub max_ms : Float64
  pub suspicious_below : Float64

unfoldable pub probe_pool : List Text
probe_pool =
    codes "webcrypto_timing"
    ∷ codes "dom_computation"
    ∷ codes "memory_allocation"
    ∷ codes "canvas_timing"
    ∷ codes "audio_latency"
    ∷ codes "font_measurement"
    ∷ codes "animation_frame"
    ∷ codes "intersection_observer"
    ∷ codes "webgl_query"
    ∷ codes "performance_heap"
    ∷ []

abbrev spec : ℕ → ℕ → ℕ → Float64 → ProbeSpec
spec n d hi below = record {
  min_ms = fin (Double.literal n d);
  max_ms = fin (Double.of_int hi);
  suspicious_below = below;
}

abbrev absent : Float64
absent = neg Double.one

unfoldable pub probe_specs : Assoc ProbeSpec
probe_specs =
    (codes "webcrypto_timing", spec 5 10 500 (fin Double.one))
    ∷ (codes "dom_computation", spec 1 10 500 (fin (Double.literal 3 10)))
    ∷ (codes "memory_allocation", spec 5 10 2000 (fin (Double.literal 2 10)))
    ∷ (codes "canvas_timing", spec 2 10 1000 (fin (Double.literal 1 10)))
    ∷ (codes "audio_latency", spec 0 1 500 absent)
    ∷ (codes "font_measurement", spec 5 100 500 (fin (Double.literal 2 100)))
    ∷ (codes "animation_frame", spec 1 1 200 (fin (Double.literal 5 10)))
    ∷ (codes "intersection_observer", spec 1 10 500 (fin (Double.literal 5 100)))
    ∷ (codes "webgl_query", spec 5 100 500 (fin (Double.literal 2 100)))
    ∷ (codes "performance_heap", spec 0 1 1000000000 absent)
    ∷ []

-- What `Validate` returns for a value and its probe's spec.
unfoldable pub judge : ProbeSpec → Float64 → Bool × ℕ
unfolding less
judge spec ms =
    if less spec.suspicious_below (fin 0)
    then if less ms (fin 0) then (false, Double.literal 9 10) else (true, 0)
    else if less ms spec.min_ms || less spec.max_ms ms
    then (false, Double.literal 8 10)
    else if less ms spec.suspicious_below
    then (false, Double.literal 9 10)
    else (true, 0)

-- `strconv.ParseFloat` at 64 bits, where `none` is an error, is the parameter `parse_float`.
module _ (parse_float : Text → Option Float64) where
  unfoldable pub validate : Text → Text → Bool × ℕ
  validate probe_name value = elim (lookup probe_name probe_specs) [
    | none ↦ (false, Double.literal 5 10)
    | some spec ↦ elim (parse_float value) [ none ↦ (false, Double.one) | some ms ↦ judge spec ms ]
  ]

  -- The sum in the order of the iteration.
  unfoldable pub total_of : ℕ → Assoc Text → ℕ
  total_of total [] = total
  total_of total (kv ∷ results) = total_of (Double.add total (validate kv.0 kv.1).1) results

  unfoldable pub validate_all : Assoc Text → ℕ
  validate_all [] = 0
  validate_all (kv ∷ results) =
      Double.div (total_of 0 (kv ∷ results)) (Double.of_int (length (kv ∷ results)))
