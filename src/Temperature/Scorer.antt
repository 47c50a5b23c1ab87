-- ===== src/Temperature/Scorer.antt =====
-- internal/temperature/scorer.go: the challenge ranges of each temperature bucket.
use eu_trust_sdk.Base.{ℕ, ◌≤◌, arith, ◌==◌, if◌then◌else◌}
use eu_trust_sdk.Challenge.Params.{ParameterRanges}
use eu_trust_sdk.Challenge.Params.Bounds.{IsRanges}

unfoldable pub bucket_ranges : ℕ → ParameterRanges
bucket_ranges bucket =
    if bucket == 0
    then record {
      hash_cash_bits_min = 16;
      hash_cash_bits_max = 18;
      argon2_memory_min_kib = 65536;
      argon2_memory_max_kib = 98304;
      argon2_iterations_min = 2;
      argon2_iterations_max = 3;
      probe_pool_size = 10;
      probe_count = 3;
    }
    else if bucket == 1
    then record {
      hash_cash_bits_min = 18;
      hash_cash_bits_max = 20;
      argon2_memory_min_kib = 98304;
      argon2_memory_max_kib = 131072;
      argon2_iterations_min = 2;
      argon2_iterations_max = 4;
      probe_pool_size = 10;
      probe_count = 4;
    }
    else if bucket == 2
    then record {
      hash_cash_bits_min = 20;
      hash_cash_bits_max = 22;
      argon2_memory_min_kib = 131072;
      argon2_memory_max_kib = 196608;
      argon2_iterations_min = 3;
      argon2_iterations_max = 5;
      probe_pool_size = 10;
      probe_count = 5;
    }
    else record {
      hash_cash_bits_min = 22;
      hash_cash_bits_max = 22;
      argon2_memory_min_kib = 196608;
      argon2_memory_max_kib = 262144;
      argon2_iterations_min = 4;
      argon2_iterations_max = 5;
      probe_pool_size = 10;
      probe_count = 5;
    }

-- Every bucket has ranges in order that fit their types, for `derive_params`.
pub bucket_ranges-IsRanges : (bucket : ℕ) → IsRanges (bucket_ranges bucket)
unfolding bucket_ranges
bucket_ranges-IsRanges bucket = ground arith

-- No least value, greatest value or probe count of `r` is above that of `q`.
pub record IsHarder (r q : ParameterRanges) : Type 0 where
  pub bits :
      (r.hash_cash_bits_min ≤ q.hash_cash_bits_min) × (r.hash_cash_bits_max ≤ q.hash_cash_bits_max)
  pub memory :
      (r.argon2_memory_min_kib ≤ q.argon2_memory_min_kib)
      × (r.argon2_memory_max_kib ≤ q.argon2_memory_max_kib)
  pub iterations :
      (r.argon2_iterations_min ≤ q.argon2_iterations_min)
      × (r.argon2_iterations_max ≤ q.argon2_iterations_max)
  pub probes : r.probe_count ≤ q.probe_count

-- A hotter bucket is never easier, in any parameter.
pub bucket_ranges-IsHarder : (a b : ℕ) → a ≤ b → IsHarder (bucket_ranges a) (bucket_ranges b)
unfolding bucket_ranges
bucket_ranges-IsHarder a b h = ground arith
