-- ===== src/Api/Metadata.antt =====
-- `TrustMetadata` of pkg/api/types.go, its seven-byte form, and the hour of a time.
pub mod RoundTrip
use Prim.Native.Nat.{bit_or}
use eu_trust_sdk.Base.{ℕ, ◌*◌, ◌/◌, ◌%◌, ◌^◌, Option, none, some, [], ◌∷◌, Text}

pub record TrustMetadata : Type 0 where
  pub challenge_class : ℕ
  pub temperature_bucket : ℕ
  pub device_class : ℕ
  pub time_bucket : ℕ

-- `byte(x)` keeps the low eight bits.
abbrev byte : ℕ → ℕ
byte x = x % 256

unfoldable pub encode : TrustMetadata → Text
encode m =
    m.challenge_class
    ∷ m.temperature_bucket
    ∷ m.device_class
    ∷ byte (m.time_bucket / 2 ^ 24)
    ∷ byte (m.time_bucket / 2 ^ 16)
    ∷ byte (m.time_bucket / 2 ^ 8)
    ∷ byte m.time_bucket
    ∷ []

-- `uint32(b3)<<24 | uint32(b4)<<16 | uint32(b5)<<8 | uint32(b6)`
unfoldable pub join_bytes : ℕ → ℕ → ℕ → ℕ → ℕ
join_bytes b3 b4 b5 b6 =
    bit_or (bit_or (bit_or (b3 * 2 ^ 24 % 2 ^ 32) (b4 * 2 ^ 16 % 2 ^ 32)) (b5 * 2 ^ 8 % 2 ^ 32)) b6

-- `none` is `ErrInvalidMetadata`; the test on `len(b)` is the pattern.
unfoldable pub decode_metadata : Text → Option TrustMetadata
decode_metadata (b0 ∷ b1 ∷ b2 ∷ b3 ∷ b4 ∷ b5 ∷ b6 ∷ []) = some (record {
  challenge_class = b0;
  temperature_bucket = b1;
  device_class = b2;
  time_bucket = join_bytes b3 b4 b5 b6;
})
decode_metadata _ = none

-- Nanoseconds since the Unix epoch to hours, cut to 32 bits.
unfoldable pub time_bucket_from_time : ℕ → ℕ
time_bucket_from_time t = t / 10 ^ 9 / 3600 % 2 ^ 32
