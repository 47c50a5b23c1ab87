-- ===== src/Api/Metadata/RoundTrip.antt =====
-- The metadata survives its byte form, both ways.
use eu_trust_sdk.Base.{
  ℕ, ◌+◌, ◌*◌, ◌/◌, ◌%◌, ◌^◌, ◌<◌, ◌≡◌, ◌≢◌, ◌↔◌, refl, none, some, [], ◌∷◌, arith, length, Text,
}
use eu_trust_sdk.Base.Bits.{bit_or-shift}
use eu_trust_sdk.Base.Bytes.{IsBytes}
use eu_trust_sdk.Api.Metadata.{
  TrustMetadata, encode, join_bytes, decode_metadata, time_bucket_from_time,
}

-- The fields fit the types that the source gives them: `uint8` and `uint32`.
pub record IsMetadata (m : TrustMetadata) : Type 0 where
  pub class : m.challenge_class < 256
  pub temperature : m.temperature_bucket < 256
  pub device : m.device_class < 256
  pub time : m.time_bucket < 2 ^ 32

join_bytes-eq-sum :
    (b3 b4 b5 b6 : ℕ)
    → b3 < 256
    → b4 < 256
    → b5 < 256
    → b6 < 256
    → join_bytes b3 b4 b5 b6 ≡ b3 * 2 ^ 24 + b4 * 2 ^ 16 + b5 * 2 ^ 8 + b6
unfolding join_bytes
join_bytes-eq-sum b3 b4 b5 b6 h3 h4 h5 h6 =
    let e3 : b3 * 2 ^ 24 % 2 ^ 32 ≡ b3 * 2 ^ 24 = omega arith in
    let e4 : b4 * 2 ^ 16 % 2 ^ 32 ≡ b4 * 2 ^ 16 = omega arith in
    let e5 : b5 * 2 ^ 8 % 2 ^ 32 ≡ b5 * 2 ^ 8 = omega arith in
    let p = b3 * 2 ^ 8 + b4 in
    let q = b3 * 2 ^ 16 + b4 * 2 ^ 8 + b5 in
    let s4 : b3 * 2 ^ 24 + b4 * 2 ^ 16 ≡ p * 2 ^ 16 = omega arith in
    let s5 : p * 2 ^ 16 + b5 * 2 ^ 8 ≡ q * 2 ^ 8 = omega arith in
    rw (e3, e4, e5, bit_or-shift 24 b3 (b4 * 2 ^ 16) (omega arith), s4)
      (rw (bit_or-shift 16 p (b5 * 2 ^ 8) (omega arith), s5)
        (rw (bit_or-shift 8 q b6 (omega arith)) (omega arith)))

-- Encoding then decoding gives the metadata back, for fields in the range of their types.
pub decode_metadata-encode :
    (m : TrustMetadata) → IsMetadata m → decode_metadata (encode m) ≡ some m
unfolding encode decode_metadata
decode_metadata-encode m h =
    let t = m.time_bucket in
    let e : join_bytes (t / 2 ^ 24 % 256) (t / 2 ^ 16 % 256) (t / 2 ^ 8 % 256) (t % 256) ≡ t =
      omega (
        arith,
        join_bytes-eq-sum (t / 2 ^ 24 % 256) (t / 2 ^ 16 % 256) (t / 2 ^ 8 % 256) (t % 256)
            (omega arith) (omega arith) (omega arith) (omega arith),
      ) in
    λ i. some (record m { time_bucket = e i })

-- Seven bytes decode to metadata in range that encodes to the same bytes.
pub encode-decode_metadata :
    (b : Text)
    → IsBytes b
    → length b ≡ 7
    → (m : TrustMetadata) × (decode_metadata b ≡ some m) × IsMetadata m × (encode m ≡ b)
unfolding encode decode_metadata
encode-decode_metadata (b0 ∷ b1 ∷ b2 ∷ b3 ∷ b4 ∷ b5 ∷ b6 ∷ [])
      (h0, (h1, (h2, (h3, (h4, (h5, (h6, _))))))) e =
    let s = join_bytes-eq-sum b3 b4 b5 b6 h3 h4 h5 h6 in
    (
      record {
        challenge_class = b0;
        temperature_bucket = b1;
        device_class = b2;
        time_bucket = join_bytes b3 b4 b5 b6;
      },
      refl,
      record { class = h0; temperature = h1; device = h2; time = omega (arith, s) },
      ground (arith, s),
    )
encode-decode_metadata _ h e = absurd (omega arith)

-- Any other length is refused.
pub decode_metadata-none : (b : Text) → length b ≢ 7 → decode_metadata b ≡ none
unfolding decode_metadata
decode_metadata-none (b0 ∷ b1 ∷ b2 ∷ b3 ∷ b4 ∷ b5 ∷ b6 ∷ []) h = absurd (h refl)
decode_metadata-none _ h = refl

-- Two times have the same bucket exactly when they lie in the same hour, before 2 ^ 32 hours.
pub time_bucket-eq_iff :
    (t u : ℕ)
    → t < 2 ^ 32 * 3600 * 10 ^ 9
    → u < 2 ^ 32 * 3600 * 10 ^ 9
    → (time_bucket_from_time t ≡ time_bucket_from_time u)
      ↔ (t / (3600 * 10 ^ 9) ≡ u / (3600 * 10 ^ 9))
unfolding time_bucket_from_time
time_bucket-eq_iff t u ht hu = (λ e. omega arith, λ e. omega arith)

pub length-encode : (m : TrustMetadata) → length (encode m) ≡ 7
unfolding encode
length-encode m = refl

pub encode-IsBytes : (m : TrustMetadata) → IsMetadata m → IsBytes (encode m)
unfolding encode
encode-IsBytes m h = (
  h.class,
  (h.temperature, (h.device, (omega arith, (omega arith, (omega arith, (omega arith, tt)))))),
)
