-- ===== src/Tests/Challenges.antt =====
-- Parameters, puzzles and the metadata.
use Prim.Native.Nat.{min}
use eu_trust_sdk.Base.{
  ℕ, ◌^◌, ◌<◌, ◌≤◌, ◌≡◌, ◌↔◌, refl, arith, some, [], ◌∷◌, ◌++◌, codes, length, replicate, drop, All,
  IsDistinct, Text, none,
}
use eu_trust_sdk.Base.Bytes.{to_int, fill_bytes}
use eu_trust_sdk.Base.Hex
use eu_trust_sdk.Api.Metadata.{
  TrustMetadata, encode, decode_metadata, join_bytes, time_bucket_from_time,
}
use eu_trust_sdk.Api.Metadata.RoundTrip.{IsMetadata, decode_metadata-encode, encode-decode_metadata}
use eu_trust_sdk.Challenge.Error.{ok}
use eu_trust_sdk.Challenge.HashCash.{
  HashCashChallenge, verify_hash_cash, scan_mask, zero_bits_from, count_leading_zero_bits,
}
use eu_trust_sdk.Challenge.HashCash.Accepts.{verify_hash_cash_iff}
use eu_trust_sdk.Challenge.HashCash.Zeros.{leading_zeros_iff}
use eu_trust_sdk.Challenge.Params.{ChallengeParams, derive_params}
use eu_trust_sdk.Challenge.Params.Bounds.{IsWithin, derive_params-IsWithin}
use eu_trust_sdk.Challenge.Probes.{select_probes}
use eu_trust_sdk.Challenge.Probes.Selection.{select_probes_lem}
use eu_trust_sdk.Temperature.Scorer.{
  bucket_ranges, bucket_ranges-IsRanges, IsHarder, bucket_ranges-IsHarder,
}
use eu_trust_sdk.Challenge.Argon2.{Argon2Challenge, verify_argon2}
use eu_trust_sdk.Challenge.Argon2.Accepts.{verify_argon2_iff}
use eu_trust_sdk.Challenge.Composite
use eu_trust_sdk.Challenge.Composite.{ChallengePayload, ChallengeResponse, probe_score}
use eu_trust_sdk.Challenge.Composite.Honest.{verify-new}
use eu_trust_sdk.Tests.Toy.{toy, zeros-IsBytes, toy-IsCrypto}

program : Unit {0}
unfolding encode decode_metadata join_bytes time_bucket_from_time to_int fill_bytes Hex.digit
    Hex.encode Hex.digit_value Hex.decode bucket_ranges scan_mask zero_bits_from
    count_leading_zero_bits
program = tt

abbrev meta : TrustMetadata
meta = record { challenge_class = 2; temperature_bucket = 1; device_class = 1; time_bucket = 70000 }

meta-IsMetadata : IsMetadata meta
meta-IsMetadata = record {
  class = omega arith;
  temperature = omega arith;
  device = omega arith;
  time = omega arith;
}

encode_example : decode_metadata (encode meta) ≡ some meta
encode_example = decode_metadata-encode meta meta-IsMetadata

abbrev bytes : Text
bytes = replicate 7 0

decode_example :
    (m : TrustMetadata) × (decode_metadata bytes ≡ some m) × IsMetadata m × (encode m ≡ bytes)
decode_example = encode-decode_metadata bytes (zeros-IsBytes 7) refl

abbrev seed : Text
seed = 5 ∷ 0 ∷ 0 ∷ 1 ∷ 0 ∷ 0 ∷ 0 ∷ 0 ∷ 9 ∷ 3 ∷ 3 ∷ 7 ∷ []

params_example :
    (p : ChallengeParams) × (derive_params seed (bucket_ranges 1) ≡ some p)
    × IsWithin (bucket_ranges 1) p
    × All (λ j. j < (bucket_ranges 1).probe_pool_size) p.probe_indices
    × IsDistinct p.probe_indices
    × (length p.probe_indices ≡ min (bucket_ranges 1).probe_pool_size (bucket_ranges 1).probe_count)
params_example =
    derive_params-IsWithin seed (bucket_ranges 1) (bucket_ranges-IsRanges 1) (omega arith)

probes_example :
    All (λ j. j < 10) (select_probes (drop 9 seed) 10 4)
    × IsDistinct (select_probes (drop 9 seed) 10 4)
    × (length (select_probes (drop 9 seed) 10 4) ≡ min 10 4)
probes_example = select_probes_lem (drop 9 seed) 10 4

bucket_ranges-IsHarder_example : IsHarder (bucket_ranges 0) (bucket_ranges 3)
bucket_ranges-IsHarder_example = bucket_ranges-IsHarder 0 3 (omega arith)

abbrev puzzle : HashCashChallenge
puzzle = record { nonce = codes "00ff"; difficulty_bits = 20 }

nonce_run : Hex.decode puzzle.nonce ≡ some (0 ∷ 255 ∷ [])
unfolding program
nonce_run = refl

solution_run : Hex.decode (codes "0000000000000001") ≡ some (replicate 7 0 ++ 1 ∷ [])
unfolding program
solution_run = refl

hash_cash_example : (verify_hash_cash toy puzzle (codes "0000000000000001") ≡ ok tt) ↔ (
    (length {A = ℕ} (replicate 7 0 ++ 1 ∷ []) ≡ 8)
    × (to_int (toy.sha256 ((0 ∷ 255 ∷ []) ++ (replicate 7 0 ++ 1 ∷ []))) < 2 ^ 236))
hash_cash_example =
    verify_hash_cash_iff toy toy-IsCrypto puzzle (0 ∷ 255 ∷ []) (replicate 7 0 ++ 1 ∷ [])
      (codes "0000000000000001") 236 nonce_run solution_run refl

zeros_run : count_leading_zero_bits (0 ∷ 0x1f ∷ 0xff ∷ []) ≡ 11
unfolding program
zeros_run = refl

zeros_example :
    (11 ≤ count_leading_zero_bits (0 ∷ 0x1f ∷ 0xff ∷ [])) ↔ (to_int (0 ∷ 0x1f ∷ 0xff ∷ []) < 2 ^ 13)
zeros_example =
    leading_zeros_iff (0 ∷ 0x1f ∷ 0xff ∷ []) 11 13 (omega arith, (omega arith, (omega arith, tt)))
      refl

abbrev memory_puzzle : Argon2Challenge
memory_puzzle = record {
  nonce = codes "00ff";
  memory = 65536;
  iterations = 2;
  parallelism = 1;
  key_length = 2;
}

argon2_example : (verify_argon2 toy memory_puzzle (codes "0000") ≡ ok tt) ↔ (
    Hex.decode (codes "0000")
    ≡ some (toy.argon2_id (codes "sovereign-trust-challenge") (0 ∷ 255 ∷ []) 2 65536 1 2))
argon2_example =
    verify_argon2_iff toy toy-IsCrypto memory_puzzle (0 ∷ 255 ∷ []) (codes "0000") nonce_run

abbrev params : ChallengeParams
params = record {
  hash_cash_bits = 17;
  argon2_memory = 65536;
  argon2_iterations = 2;
  probe_indices = 3 ∷ 8 ∷ [];
}

abbrev honest : ChallengeResponse
honest = record {
  challenge_id = codes "id";
  hash_cash_solution = Hex.encode (replicate 8 0);
  argon2_result = Hex.encode (replicate 32 0);
  probe_results = [];
}

digest_run : to_int (toy.sha256 (replicate 16 0 ++ replicate 8 0)) < 2 ^ 239
unfolding program
digest_run = omega arith

honest_example :
    (payload : ChallengePayload) × (Composite.new params
        (codes "id")
        (some (replicate 16 0))
        (some (replicate 16 0))
        1000
      ≡ ok payload)
    × (Composite.verify toy 5000 payload honest none ≡ ok (2, probe_score payload.probes [] none))
honest_example =
    verify-new toy toy-IsCrypto params (codes "id") (replicate 16 0) (replicate 16 0)
      (replicate 8 0) 1000 5000 239 honest none (zeros-IsBytes 16) (zeros-IsBytes 16)
      (zeros-IsBytes 8) (zeros-IsBytes 32) refl refl digest_run (omega arith) refl refl refl
