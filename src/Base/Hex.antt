-- ===== src/Base/Hex.antt =====
-- encoding/hex: `EncodeToString` and `DecodeString`.
use eu_trust_sdk.Base.Tests.{ltb, leb, if◌then◌else◌, Text, Option-cases}
use eu_trust_sdk.Base.Lists.{length}
use eu_trust_sdk.Base.Bytes.{IsBytes}
use Prim.Native.Nat.{ℕ, ◌+◌, ◌-◌, ◌*◌, ◌/◌, ◌%◌, ◌<◌}
use mathlib.Core.Path.{◌≡◌, refl, ap}
use mathlib.Core.Logic.{inl, inr}
use mathlib.Core.Bool.{◌&&◌}
use mathlib.Core.Option.{Option, none, some}
use mathlib.Core.List.{[], ◌∷◌}
use native.Mathlib.Omega.{arith}

-- The digit of a number below 16: `0` to `9`, `a` to `f`.
unfoldable pub digit : ℕ → ℕ
digit d = if ltb d 10 then d + b'0' else d - 10 + b'a'

unfoldable pub encode : Text → Text
unfolding digit
encode [] = []
encode (b ∷ bs) = digit (b / 16) ∷ digit (b % 16) ∷ encode bs

-- Capital letters are read too.
unfoldable pub digit_value : ℕ → Option ℕ
digit_value c =
    if leb b'0' c && leb c b'9'
    then some (c - b'0')
    else if leb b'a' c && leb c b'f'
    then some (c - b'a' + 10)
    else if leb b'A' c && leb c b'F'
    then some (c - b'A' + 10)
    else none

infixl 5 ◌>>=◌
abbrev ◌>>=◌ : {A B : Type 0} → Option A → (A → Option B) → Option B
none >>= f = none
some a >>= f = f a

-- `none` is the error: a byte that is no digit, or an odd length.
unfoldable pub decode : Text → Option Text
unfolding digit_value
decode [] = some []
decode (c ∷ []) = none
decode (c ∷ d ∷ cs) = do
  high ← digit_value c
  low ← digit_value d
  rest ← decode cs
  some ((high * 16 + low) ∷ rest)

digit_value-digit : (d : ℕ) → d < 16 → digit_value (digit d) ≡ some d
unfolding digit digit_value
digit_value-digit d h = ground arith

-- What was encoded is read back.
pub decode-encode : (bs : Text) → IsBytes bs → decode (encode bs) ≡ some bs
unfolding encode decode
decode-encode [] h = refl
decode-encode (b ∷ bs) h = ground (
  arith,
  digit_value-digit (b / 16) (omega (arith, h.0)),
  digit_value-digit (b % 16) (omega arith),
  decode-encode bs h.1,
)

digit_value-lt : (c v : ℕ) → digit_value c ≡ some v → v < 16
unfolding digit_value
digit_value-lt c v h = ground arith

-- What a successful read of two digits more has read.
decode_cons :
    (c d : ℕ) (cs bs : Text)
    → decode (c ∷ d ∷ cs) ≡ some bs
    → (b : ℕ) × (rest : Text) × (bs ≡ b ∷ rest) × (b < 256) × (decode cs ≡ some rest)
unfolding decode
decode_cons c d cs bs h = elim (Option-cases (digit_value c)) [
  | inl bad ↦ absurd (ground (arith, bad))
  | inr (high, e) ↦ elim (Option-cases (digit_value d)) [
    | inl bad ↦ absurd (ground (arith, e, bad))
    | inr (low, e') ↦ elim (Option-cases (decode cs)) [
      | inl bad ↦ absurd (ground (arith, e, e', bad))
      | inr (rest, e'') ↦ (
        high * 16 + low,
        rest,
        ground (arith, e, e', e''),
        omega (arith, digit_value-lt c high e, digit_value-lt d low e'),
        e'',
      )
    ]
  ]
]

-- Two digits for each byte.
pub length-decode : (s bs : Text) → decode s ≡ some bs → length s ≡ 2 * length bs
unfolding decode
length-decode [] bs h = ground arith
length-decode (c ∷ []) bs h = cc
length-decode (c ∷ d ∷ cs) bs h =
    let (b, rest, e, _, below) = decode_cons c d cs bs h in
    omega (arith, ap (length {A = ℕ}) e, length-decode cs rest below)

-- Whatever is read is a byte string.
pub decode-IsBytes : (s bs : Text) → decode s ≡ some bs → IsBytes bs
unfolding decode
decode-IsBytes [] [] h = tt
decode-IsBytes [] (b ∷ bs) h = absurd (ground arith)
decode-IsBytes (c ∷ []) bs h = cc
decode-IsBytes (c ∷ d ∷ cs) bs h =
    let (b, rest, e, small, below) = decode_cons c d cs bs h in
    rw e (small, decode-IsBytes cs rest below)
