-- ===== src/Base/Base64/RoundTrip.antt =====
-- Base64 text decodes to the bytes that it encodes.
use eu_trust_sdk.Base.Tests.{◌==◌, Text, Option-cases}
use eu_trust_sdk.Base.Bytes.{IsBytes}
use eu_trust_sdk.Base.Table.{all_below, all_below_sound}
use Prim.Native.Nat.{ℕ, ◌+◌, ◌*◌, ◌/◌, ◌%◌, ◌<◌}
use mathlib.Core.Path.{◌≡◌, refl, ◌∙◌, subst}
use mathlib.Core.Logic.{inl, inr}
use mathlib.Core.Bool.{Bool, true, false, ◌&&◌, not}
use mathlib.Core.Option.{none, some}
use mathlib.Core.List.{[], ◌∷◌}
use native.Mathlib.Omega.{arith}
use eu_trust_sdk.Base.Base64.{
  char, encode_with, encode, char_value, skip_breaks, last_quantum, decode_quanta, decode,
}

-- The value of a digit's character is the digit, and the character is none that means anything else.
abbrev is_read : ℕ → Bool
is_read v = elim (char_value (char b'+' b'/' v)) [
  | none ↦ false
  | some w ↦
      (w == v)
      && not (char b'+' b'/' v == b'=')
      && not (char b'+' b'/' v == 10)
      && not (char b'+' b'/' v == 13)
]

read_table : all_below 64 is_read ≡ true
unfolding all_below char char_value
read_table = refl

char_lem :
    (v : ℕ)
    → v < 64
    → (char_value (char b'+' b'/' v) ≡ some v)
      × ((char b'+' b'/' v == b'=') ≡ false)
      × ((char b'+' b'/' v == 10) ≡ false)
      × ((char b'+' b'/' v == 13) ≡ false)
char_lem v small =
    let shown = all_below_sound 64 is_read v read_table small in
    elim (Option-cases (char_value (char b'+' b'/' v))) [
      | inl e ↦ absurd (cc)
      | inr (w, e) ↦ ground (arith, shown, e)
    ]

skip-digit :
    (v : ℕ) (cs : Text)
    → v < 64
    → skip_breaks (char b'+' b'/' v ∷ cs) ≡ char b'+' b'/' v ∷ skip_breaks cs
unfolding skip_breaks
skip-digit v cs small = ground (arith, char_lem v small)

pad-skip : (cs : Text) → skip_breaks (b'=' ∷ cs) ≡ b'=' ∷ skip_breaks cs
unfolding skip_breaks
pad-skip cs = refl

nil-skip : skip_breaks [] ≡ []
unfolding skip_breaks
nil-skip = refl

skip-encode : (bs : Text) → IsBytes bs → skip_breaks (encode bs) ≡ encode bs
unfolding encode encode_with
skip-encode [] h = nil-skip
skip-encode (a ∷ []) h = rw (
  skip-digit (a / 4) _ (omega (arith, h.0)),
  skip-digit (a % 4 * 16) _ (omega arith),
  pad-skip (b'=' ∷ []),
  pad-skip [],
  nil-skip,
)
skip-encode (a ∷ b ∷ []) h = rw (
  skip-digit (a / 4) _ (omega (arith, h.0)),
  skip-digit (a % 4 * 16 + b / 16) _ (omega (arith, h.1.0)),
  skip-digit (b % 16 * 4) _ (omega arith),
  pad-skip [],
  nil-skip,
)
skip-encode (a ∷ b ∷ d ∷ bs) h = rw (
  skip-digit (a / 4) _ (omega (arith, h.0)),
  skip-digit (a % 4 * 16 + b / 16) _ (omega (arith, h.1.0)),
  skip-digit (b % 16 * 4 + d / 64) _ (omega (arith, h.1.1.0)),
  skip-digit (d % 64) _ (omega arith),
  skip-encode bs h.1.1.1,
)

whole_quantum :
    (a b d : ℕ)
    → a < 256
    → b < 256
    → d < 256
    → (a / 4 * 4 + (a % 4 * 16 + b / 16) / 16 ≡ a)
      × ((a % 4 * 16 + b / 16) % 16 * 16 + (b % 16 * 4 + d / 64) / 4 ≡ b)
      × ((b % 16 * 4 + d / 64) % 4 * 64 + d % 64 ≡ d)
whole_quantum a b d ha hb hd = (omega arith, omega arith, omega arith)

digits-lt :
    (a b d : ℕ)
    → a < 256
    → b < 256
    → d < 256
    → (a / 4 < 64) × (a % 4 * 16 + b / 16 < 64) × (b % 16 * 4 + d / 64 < 64) × (d % 64 < 64)
digits-lt a b d ha hb hd = (omega arith, omega arith, omega arith, omega arith)

encode-cons : (b : ℕ) (bs : Text) → (c : ℕ) × (cs : Text) × (encode (b ∷ bs) ≡ c ∷ cs)
unfolding encode encode_with
encode-cons a [] = (_, _, refl)
encode-cons a (b ∷ []) = (_, _, refl)
encode-cons a (b ∷ d ∷ bs) = (_, _, refl)

abbrev digit : ℕ → ℕ
digit v = char b'+' b'/' v

module _ (v0 v1 : ℕ) (s0 : v0 < 64) (s1 : v1 < 64) where
  one_byte : last_quantum (digit v0) (digit v1) b'=' b'=' ≡ some ((v0 * 4 + v1 / 16) ∷ [])
  unfolding last_quantum
  one_byte = rw ((char_lem v0 s0).0, (char_lem v1 s1).0)

  module _ (v2 : ℕ) (s2 : v2 < 64) where
    two_bytes :
        last_quantum (digit v0) (digit v1) (digit v2) b'='
        ≡ some ((v0 * 4 + v1 / 16) ∷ (v1 % 16 * 16 + v2 / 4) ∷ [])
    unfolding last_quantum
    two_bytes =
        let (e2, n2, _, _) = char_lem v2 s2 in rw ((char_lem v0 s0).0, (char_lem v1 s1).0, n2, e2)

    module _ (v3 : ℕ) (s3 : v3 < 64) where
      three_bytes :
          last_quantum (digit v0) (digit v1) (digit v2) (digit v3)
          ≡ some ((v0 * 4 + v1 / 16) ∷ (v1 % 16 * 16 + v2 / 4) ∷ (v2 % 4 * 64 + v3) ∷ [])
      unfolding last_quantum
      three_bytes =
          let (e2, n2, _, _) = char_lem v2 s2 in
          let (e3, n3, _, _) = char_lem v3 s3 in
          rw ((char_lem v0 s0).0, (char_lem v1 s1).0, n2, e2, n3, e3)

      more_bytes :
          (c4 : ℕ) (cs rest : Text)
          → decode_quanta (c4 ∷ cs) ≡ some rest
          → decode_quanta (digit v0 ∷ digit v1 ∷ digit v2 ∷ digit v3 ∷ c4 ∷ cs)
            ≡ some ((v0 * 4 + v1 / 16) ∷ (v1 % 16 * 16 + v2 / 4) ∷ (v2 % 4 * 64 + v3) ∷ rest)
      unfolding decode_quanta
      more_bytes c4 cs rest e =
          rw ((char_lem v0 s0).0, (char_lem v1 s1).0, (char_lem v2 s2).0, (char_lem v3 s3).0, e)

decode_quanta-encode : (bs : Text) → IsBytes bs → decode_quanta (encode bs) ≡ some bs
unfolding encode encode_with decode_quanta
decode_quanta-encode [] h = refl
decode_quanta-encode (a ∷ []) h =
    let same : a / 4 * 4 + a % 4 * 16 / 16 ≡ a = omega arith in
    rw (one_byte (a / 4) (a % 4 * 16) (omega (arith, h.0)) (omega arith), same)
decode_quanta-encode (a ∷ b ∷ []) h =
    let (s0, s1, _, _) = digits-lt a b 0 h.0 h.1.0 (omega arith) in
    let p : a / 4 * 4 + (a % 4 * 16 + b / 16) / 16 ≡ a = omega (arith, h.1.0) in
    let q : (a % 4 * 16 + b / 16) % 16 * 16 + b % 16 * 4 / 4 ≡ b = omega (arith, h.1.0) in
    rw (two_bytes (a / 4) (a % 4 * 16 + b / 16) s0 s1 (b % 16 * 4) (omega arith), p, q)
decode_quanta-encode (a ∷ b ∷ d ∷ []) h =
    let (s0, s1, s2, s3) = digits-lt a b d h.0 h.1.0 h.1.1.0 in
    let (p, q, r) = whole_quantum a b d h.0 h.1.0 h.1.1.0 in
    rw (
      three_bytes (a / 4) (a % 4 * 16 + b / 16) s0 s1 (b % 16 * 4 + d / 64) s2 (d % 64) s3,
      p,
      q,
      r,
    )
decode_quanta-encode (a ∷ b ∷ d ∷ x ∷ bs) h =
    let (s0, s1, s2, s3) = digits-lt a b d h.0 h.1.0 h.1.1.0 in
    let (p, q, r) = whole_quantum a b d h.0 h.1.0 h.1.1.0 in
    let (c4, cs, e) = encode-cons x bs in
    let rest : decode_quanta (c4 ∷ cs) ≡ some (x ∷ bs) =
      subst (λ t. decode_quanta t ≡ some (x ∷ bs)) e (decode_quanta-encode (x ∷ bs) h.1.1.1) in
    let step =
      more_bytes (a / 4) (a % 4 * 16 + b / 16) s0 s1 (b % 16 * 4 + d / 64) s2 (d % 64) s3 c4 cs
        (x ∷ bs) rest in
    rw e (step ∙ rw (p, q, r))

-- Base64 text decodes to the bytes that it encodes.
pub decode_std-encode : (bs : Text) → IsBytes bs → decode (encode bs) ≡ some bs
unfolding decode
decode_std-encode bs h = rw (skip-encode bs h) (decode_quanta-encode bs h)
