-- ===== src/Environment/Scores.antt =====
-- What the validation of a probe gives.
use eu_trust_sdk.Base.{
  ℕ, suc, ◌+◌, ◌*◌, ◌^◌, ◌≤◌, ◌<◌, ◌≡◌, ◌≢◌, refl, arith, true, false, ◌||◌, Option, some, [], ◌∷◌,
  length, Option-cases, Bool-cases, inl, inr, inl, inr, Text,
}
use eu_trust_sdk.Base.Assoc.{Assoc, lookup}
use eu_trust_sdk.Double
use eu_trust_sdk.Double.Bounds.{add-le, mean-le}
use eu_trust_sdk.Environment.{
  Float64, nan, minus_inf, plus_inf, neg, fin, less, ProbeSpec, probe_specs, judge, validate,
  total_of, validate_all,
}

scores_lem :
    (Double.literal 5 10 ≤ Double.one)
    × (Double.literal 8 10 ≤ Double.one)
    × (Double.literal 9 10 ≤ Double.one)
unfolding Double.literal Double.one Double.round_div Double.bit_length Double.nearest
scores_lem = (omega arith, omega arith, omega arith)

judge-le : (spec : ProbeSpec) (ms : Float64) → (judge spec ms).1 ≤ Double.one
unfolding judge
judge-le spec ms = let (a, b, c) = scores_lem in ground arith

less-nan : (x : Float64) → less x nan ≡ false
unfolding less
less-nan nan = refl
less-nan minus_inf = refl
less-nan plus_inf = refl
less-nan (neg m) = refl
less-nan (fin m) = refl

nan-passes : (spec : ProbeSpec) → judge spec nan ≡ (true, 0)
unfolding judge less
nan-passes spec = ground (arith, less-nan spec.suspicious_below, less-nan spec.max_ms)

less-le : (s m : ℕ) (x : Float64) → s ≤ m → less x (fin s) ≡ true → less x (fin m) ≡ true
unfolding less
less-le s m nan le h = h
less-le s m minus_inf le h = refl
less-le s m plus_inf le h = h
less-le s m (neg n) le h = ground arith
less-le s m (fin n) le h = ground arith

not-negative : (s : ℕ) → less (fin s) (fin 0) ≡ false
unfolding less
not-negative s = ground arith

distinct :
    (0 ≢ Double.literal 9 10)
    × (Double.literal 8 10 ≢ Double.literal 9 10)
    × (Double.one ≢ Double.literal 9 10)
unfolding Double.literal Double.one Double.round_div Double.bit_length Double.nearest
distinct = (λ e. absurd (omega arith), λ e. absurd (omega arith), λ e. absurd (omega arith))

not_suspicious :
    (m s : ℕ) (max ms : Float64)
    → s ≤ m
    → (judge (record { min_ms = fin m; max_ms = max; suspicious_below = fin s }) ms).1
      ≢ Double.literal 9 10
unfolding judge
not_suspicious m s max ms le =
    let (zero_apart, out_apart, _) = distinct in
    let real : less (fin s) (fin 0) ≡ false = not-negative s in
    elim (Bool-cases (less ms (fin s))) [
      | inl low ↦ rw (real, less-le s m ms le low) out_apart
      | inr high ↦ elim (Bool-cases (less ms (fin m) || less max ms)) [
        | inl out ↦ rw (real, high, out) out_apart
        | inr within ↦ rw (real, high, within) zero_apart
      ]
    ]

module _ (parse_float : Text → Option Float64) where
  pub validate-le : (name value : Text) → (validate parse_float name value).1 ≤ Double.one
  unfolding validate
  validate-le name value = elim (Option-cases (lookup name probe_specs)) [
    | inl e ↦ rw (e, validate) (scores_lem.0)
    | inr (spec, e) ↦ elim (Option-cases (parse_float value)) [
      | inl bad ↦ rw (e, bad, validate) (omega arith)
      | inr (ms, good) ↦ rw (e, good, validate) (judge-le spec ms)
    ]
  ]

  pub total_of-le :
      (results : Assoc Text) (total k : ℕ)
      → total ≤ k * Double.one
      → k + length results < 2 ^ 53
      → total_of parse_float total results ≤ (k + length results) * Double.one
  unfolding total_of
  total_of-le [] total k h small = omega (arith, h)
  total_of-le (kv ∷ results) total k h small = omega (
    arith,
    total_of-le results (Double.add total (validate parse_float kv.0 kv.1).1) (suc k)
        (add-le total _ k (omega arith) h (validate-le kv.0 kv.1)) (omega arith),
  )

  -- The mean anomaly score of fewer than 2 ^ 53 probe results is at most 1, in whatever order they
  -- are added and after all the rounding, whatever numbers the results parse to.
  pub validate_all-le :
      (results : Assoc Text)
      → length results < 2 ^ 53
      → validate_all parse_float results ≤ Double.one
  unfolding validate_all
  validate_all-le [] h = omega arith
  validate_all-le (kv ∷ results) h =
      mean-le (total_of parse_float 0 (kv ∷ results)) (suc (length results)) (omega arith) h
        (omega (arith, total_of-le (kv ∷ results) 0 0 (omega arith) (omega arith)))

  -- A result that parses to NaN passes every probe that is known, with the score 0.
  pub validate-nan :
      (name value : Text) (spec : ProbeSpec)
      → lookup name probe_specs ≡ some spec
      → parse_float value ≡ some nan
      → validate parse_float name value ≡ (true, 0)
  unfolding validate
  validate-nan name value spec e good = rw (e, good, validate) (nan-passes spec)

  -- Where a known probe's bound for a suspicious value is not negative and does not pass its minimum,
  -- the score 0.9 of a suspicious value is never given: what is below the bound is below the minimum
  -- already.
  pub validate-suspicious :
      (name value : Text) (m s : ℕ) (max : Float64)
      → lookup name probe_specs
        ≡ some (record { min_ms = fin m; max_ms = max; suspicious_below = fin s })
      → s ≤ m
      → (validate parse_float name value).1 ≢ Double.literal 9 10
  unfolding validate
  validate-suspicious name value m s max e le = elim (Option-cases (parse_float value)) [
    | inl bad ↦ rw (e, bad, validate) (distinct.2)
    | inr (ms, good) ↦ rw (e, good, validate) (not_suspicious m s max ms le)
  ]
