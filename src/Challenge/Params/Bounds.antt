-- ===== src/Challenge/Params/Bounds.antt =====
-- Derived parameters lie in their ranges, whatever the seed.
use Prim.Native.Nat.{min}
use native.Mathlib.Nat.{mod-lt, mod-eq_of_lt, add-mod_right}
use eu_trust_sdk.Base.{
  ℕ, ◌+◌, ◌-◌, ◌%◌, ◌^◌, ◌≤◌, ◌<◌, ◌≡◌, ap, ◌∙◌, false, some, [], arith, length, take, drop, get_or,
  All, IsDistinct, ltb, Text,
}
use eu_trust_sdk.Base.Bytes.{to_int}
use eu_trust_sdk.Challenge.Probes.{select_probes}
use eu_trust_sdk.Challenge.Probes.Selection.{select_probes_lem}
use eu_trust_sdk.Challenge.Params.{ChallengeParams, ParameterRanges, in_range, derive_params}

-- The bounds of one parameter, of a type with `m` values: in order, and not the whole type.
abbrev pub IsRange : ℕ → ℕ → ℕ → Type 0
IsRange m lo hi = (lo ≤ hi) × (hi < m) × (hi + 1 < lo + m)

pub record IsRanges (r : ParameterRanges) : Type 0 where
  pub bits : IsRange (2 ^ 8) r.hash_cash_bits_min r.hash_cash_bits_max
  pub memory : IsRange (2 ^ 32) r.argon2_memory_min_kib r.argon2_memory_max_kib
  pub iterations : IsRange (2 ^ 32) r.argon2_iterations_min r.argon2_iterations_max

abbrev pub Between : ℕ → ℕ → ℕ → Type 0
Between lo hi x = (lo ≤ x) × (x ≤ hi)

-- The parameters that a challenge may have under the ranges.
pub record IsWithin (r : ParameterRanges) (p : ChallengeParams) : Type 0 where
  pub bits : Between r.hash_cash_bits_min r.hash_cash_bits_max p.hash_cash_bits
  pub memory : Between r.argon2_memory_min_kib r.argon2_memory_max_kib p.argon2_memory
  pub iterations : Between r.argon2_iterations_min r.argon2_iterations_max p.argon2_iterations

in_range_lem :
    (m lo hi x : ℕ) → IsRange m lo hi → (v : ℕ) × (in_range m lo hi x ≡ some v) × Between lo hi v
unfolding in_range
in_range_lem m lo hi x (order, fits, width) =
    let size = (hi + m - lo + 1) % m in
    let e : hi + m - lo + 1 ≡ (hi - lo + 1) + m = omega arith in
    let size_lem : size ≡ hi - lo + 1 =
      ap (λ (t : ℕ). t % m) e ∙ add-mod_right (hi - lo + 1) m ∙ mod-eq_of_lt (omega arith) in
    let below : x % size < hi - lo + 1 = omega (arith, mod-lt x {m = size} (omega arith)) in
    let small : (lo + x % size) % m ≡ lo + x % size = mod-eq_of_lt (omega arith) in
    (lo + x % size, ground (arith, size_lem, small), (omega arith, omega arith))

-- On ranges that are in order and do not fill their type, a seed of nine bytes or more gives
-- parameters, each inside its range, with distinct probes from the pool, as many as asked for or
-- as the pool has.
pub derive_params-IsWithin :
    (seed : Text) (r : ParameterRanges)
    → IsRanges r
    → 9 ≤ length seed
    → (p : ChallengeParams) × (derive_params seed r ≡ some p)
      × IsWithin r p
      × All (λ j. j < r.probe_pool_size) p.probe_indices
      × IsDistinct p.probe_indices
      × (length p.probe_indices ≡ min r.probe_pool_size r.probe_count)
unfolding derive_params
derive_params-IsWithin seed r h long =
    let (bits, bits_lem, bits_in) =
      in_range_lem (2 ^ 8) r.hash_cash_bits_min r.hash_cash_bits_max (get_or seed 0 0) h.bits in
    let (memory, memory_lem, memory_in) =
      in_range_lem (2 ^ 32) r.argon2_memory_min_kib r.argon2_memory_max_kib
        (to_int (take 4 (drop 1 seed))) h.memory in
    let (iterations, iterations_lem, iterations_in) =
      in_range_lem (2 ^ 32) r.argon2_iterations_min r.argon2_iterations_max
        (to_int (take 4 (drop 5 seed))) h.iterations in
    let (in_pool, distinct, many) =
      select_probes_lem (drop 9 seed) r.probe_pool_size r.probe_count in
    let full : ltb (length seed) 9 ≡ false = ground arith in
    (
      record {
        hash_cash_bits = bits;
        argon2_memory = memory;
        argon2_iterations = iterations;
        probe_indices = select_probes (drop 9 seed) r.probe_pool_size r.probe_count;
      },
      rw (full, bits_lem, memory_lem, iterations_lem),
      record { bits = bits_in; memory = memory_in; iterations = iterations_in },
      in_pool,
      distinct,
      many,
    )

-- A shorter seed gives the least parameters and no probes.
derive_params_short :
    (seed : Text) (r : ParameterRanges)
    → length seed < 9
    → derive_params seed r
      ≡ some (record {
        hash_cash_bits = r.hash_cash_bits_min;
        argon2_memory = r.argon2_memory_min_kib;
        argon2_iterations = r.argon2_iterations_min;
        probe_indices = [];
      })
unfolding derive_params
derive_params_short seed r short = ground arith
