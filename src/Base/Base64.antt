-- ===== src/Base/Base64.antt =====
-- encoding/base64: `StdEncoding` and `URLEncoding`, with padding. `DecodeString` of `StdEncoding`
-- skips line breaks, and does not ask that the bits that padding leaves over are 0.
pub mod RoundTrip
use eu_trust_sdk.Base.Tests.{ltb, leb, ◌==◌, if◌then◌else◌, Text, Option-cases}
use eu_trust_sdk.Base.Lists.{length}
use eu_trust_sdk.Base.Bytes.{IsBytes}
use eu_trust_sdk.Base.Table.{all_below, all_below_sound}
use Prim.Native.Nat.{ℕ, ◌+◌, ◌-◌, ◌*◌, ◌/◌, ◌%◌, ◌<◌}
use mathlib.Core.Path.{◌≡◌, refl, ap, ◌∙◌, subst}
use mathlib.Core.Logic.{inl, inr}
use mathlib.Core.Bool.{Bool, true, false, ◌&&◌, ◌||◌, not}
use mathlib.Core.Option.{Option, none, some}
use mathlib.Core.List.{List, [], ◌∷◌}
use native.Mathlib.Omega.{arith}

-- The characters for 62 and 63.
unfoldable pub char : ℕ → ℕ → ℕ → ℕ
char c62 c63 v =
    if ltb v 26
    then v + b'A'
    else if ltb v 52
    then v - 26 + b'a'
    else if ltb v 62
    then v - 52 + b'0'
    else if v == 62
    then c62
    else c63

unfoldable pub encode_with : ℕ → ℕ → Text → Text
unfolding char
encode_with c62 c63 [] = []
encode_with c62 c63 (a ∷ []) = char c62 c63 (a / 4) ∷ char c62 c63 (a % 4 * 16) ∷ b'=' ∷ b'=' ∷ []
encode_with c62 c63 (a ∷ b ∷ []) =
    char c62 c63 (a / 4)
    ∷ char c62 c63 (a % 4 * 16 + b / 16)
    ∷ char c62 c63 (b % 16 * 4)
    ∷ b'='
    ∷ []
encode_with c62 c63 (a ∷ b ∷ d ∷ bs) =
    char c62 c63 (a / 4)
    ∷ char c62 c63 (a % 4 * 16 + b / 16)
    ∷ char c62 c63 (b % 16 * 4 + d / 64)
    ∷ char c62 c63 (d % 64)
    ∷ encode_with c62 c63 bs

unfoldable pub encode : Text → Text
unfolding encode_with
encode bs = encode_with b'+' b'/' bs

unfoldable pub url_encode : Text → Text
unfolding encode_with
url_encode bs = encode_with b'-' b'_' bs

unfoldable pub char_value : ℕ → Option ℕ
char_value c =
    if leb b'A' c && leb c b'Z'
    then some (c - b'A')
    else if leb b'a' c && leb c b'z'
    then some (c - b'a' + 26)
    else if leb b'0' c && leb c b'9'
    then some (c - b'0' + 52)
    else if c == b'+'
    then some 62
    else if c == b'/'
    then some 63
    else none

unfoldable pub skip_breaks : Text → Text
skip_breaks [] = []
skip_breaks (c ∷ cs) = let rest = skip_breaks cs in if c == 10 || c == 13 then rest else c ∷ rest

infixl 5 ◌>>=◌
abbrev ◌>>=◌ : {A B : Type 0} → Option A → (A → Option B) → Option B
none >>= f = none
some a >>= f = f a

-- The last four characters, which may have padding.
unfoldable pub last_quantum : ℕ → ℕ → ℕ → ℕ → Option Text
unfolding char_value
last_quantum c0 c1 c2 c3 = do
  v0 ← char_value c0
  v1 ← char_value c1
  if c2 == b'=' then if c3 == b'=' then some ((v0 * 4 + v1 / 16) ∷ []) else none else do
    v2 ← char_value c2
    if c3 == b'=' then some ((v0 * 4 + v1 / 16) ∷ (v1 % 16 * 16 + v2 / 4) ∷ []) else do
      v3 ← char_value c3
      some ((v0 * 4 + v1 / 16) ∷ (v1 % 16 * 16 + v2 / 4) ∷ (v2 % 4 * 64 + v3) ∷ [])

unfoldable pub decode_quanta : Text → Option Text
unfolding last_quantum
decode_quanta [] = some []
decode_quanta (c0 ∷ c1 ∷ c2 ∷ c3 ∷ []) = last_quantum c0 c1 c2 c3
decode_quanta (c0 ∷ c1 ∷ c2 ∷ c3 ∷ c4 ∷ cs) = do
  v0 ← char_value c0
  v1 ← char_value c1
  v2 ← char_value c2
  v3 ← char_value c3
  rest ← decode_quanta (c4 ∷ cs)
  some ((v0 * 4 + v1 / 16) ∷ (v1 % 16 * 16 + v2 / 4) ∷ (v2 % 4 * 64 + v3) ∷ rest)
decode_quanta _ = none

unfoldable pub decode : Text → Option Text
unfolding skip_breaks decode_quanta
decode cs = decode_quanta (skip_breaks cs)
