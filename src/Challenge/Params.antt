-- ===== src/Challenge/Params.antt =====
-- internal/challenge/params.go: challenge parameters derived from the bytes of a seed. The fields
-- are Go's `uint8` and `uint32`, whose arithmetic wraps; the two `int` fields are never negative.
pub mod Bounds
use eu_trust_sdk.Base.{
  ℕ, ◌+◌, ◌-◌, ◌%◌, ◌^◌, Option, none, some, List, [], ◌++◌, length, take, drop, get_or, ltb, ◌==◌,
  if◌then◌else◌, Text,
}
use eu_trust_sdk.Base.Bytes.{to_int}
use eu_trust_sdk.Challenge.Probes.{select_probes}

pub record ChallengeParams : Type 0 where
  pub hash_cash_bits : ℕ
  pub argon2_memory : ℕ
  pub argon2_iterations : ℕ
  pub probe_indices : List ℕ

pub record ParameterRanges : Type 0 where
  pub hash_cash_bits_min : ℕ
  pub hash_cash_bits_max : ℕ
  pub argon2_memory_min_kib : ℕ
  pub argon2_memory_max_kib : ℕ
  pub argon2_iterations_min : ℕ
  pub argon2_iterations_max : ℕ
  pub probe_pool_size : ℕ
  pub probe_count : ℕ

-- The three writes into the keyed hash.
unfoldable pub generate_seed : (Text → Text → Text) → Text → Text → Text → Text → Text
generate_seed hmac_sha256 server_secret nonce timestamp_bytes ip_hash =
    hmac_sha256 server_secret (nonce ++ timestamp_bytes ++ ip_hash)

-- `max - min + 1` and `min + x % range` on unsigned integers modulo `m`. `none` is the panic of a
-- division by zero, where the range wraps round to 0.
abbrev range_size : ℕ → ℕ → ℕ → ℕ
range_size m lo hi = (hi + m - lo + 1) % m

unfoldable pub in_range : ℕ → ℕ → ℕ → ℕ → Option ℕ
in_range m lo hi x =
    if range_size m lo hi == 0 then none else some ((lo + x % range_size m lo hi) % m)

infixl 5 ◌>>=◌
abbrev ◌>>=◌ : {A B : Type 0} → Option A → (A → Option B) → Option B
none >>= f = none
some a >>= f = f a

-- `none` is a panic.
unfoldable pub derive_params : Text → ParameterRanges → Option ChallengeParams
unfolding in_range
derive_params seed ranges =
    if ltb (length seed) 9
    then some (record {
      hash_cash_bits = ranges.hash_cash_bits_min;
      argon2_memory = ranges.argon2_memory_min_kib;
      argon2_iterations = ranges.argon2_iterations_min;
      probe_indices = [];
    })
    else do
      hash_bits ←
          in_range (2 ^ 8) ranges.hash_cash_bits_min ranges.hash_cash_bits_max (get_or seed 0 0)
      argon2_mem ←
          in_range (2 ^ 32) ranges.argon2_memory_min_kib ranges.argon2_memory_max_kib
            (to_int (take 4 (drop 1 seed)))
      argon2_iter ←
          in_range (2 ^ 32) ranges.argon2_iterations_min ranges.argon2_iterations_max
            (to_int (take 4 (drop 5 seed)))
      some (record {
        hash_cash_bits = hash_bits;
        argon2_memory = argon2_mem;
        argon2_iterations = argon2_iter;
        probe_indices = select_probes (drop 9 seed) ranges.probe_pool_size ranges.probe_count;
      })
