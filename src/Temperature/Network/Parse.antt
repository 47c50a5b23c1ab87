-- ===== src/Temperature/Network/Parse.antt =====
-- `ParseIP` and `ParseCIDR` of Go's net package, which read addresses as netip does.
use eu_trust_sdk.Base.{
  ℕ, zero, suc, ◌+◌, ◌*◌, ◌-◌, ◌/◌, ◌%◌, ◌^◌, true, false, ◌&&◌, ◌||◌, Option, none, some, [], ◌∷◌,
  ltb, leb, ◌==◌, if◌then◌else◌, Text,
}
use eu_trust_sdk.Base.Hex.{digit_value}
use eu_trust_sdk.Temperature.Network.{Ip, v4, v6, Net, net4, net6}

-- `parseIPv4Fields`: the number of the fields before, the current field, how many digits it has so
-- far, and how many fields there were.
pub record Fields : Type 0 where
  pub acc : ℕ
  pub val : ℕ
  pub digits : ℕ
  pub pos : ℕ

unfoldable pub next_digit : ℕ → Fields → Option Fields
next_digit d f =
    let val = f.val * 10 + d in
    if (f.digits == 1 && f.val == 0) || ltb 255 val
    then none
    else some (record { acc = f.acc; val = val; digits = suc f.digits; pos = f.pos })

-- A dot ends a field that is not empty, that is not the fourth, and that is not all there is.
unfoldable pub next_field : Fields → Text → Option Fields
next_field f [] = none
next_field f (_ ∷ _) =
    if f.digits == 0 || f.pos == 3
    then none
    else some (record { acc = f.acc * 256 + f.val; val = 0; digits = 0; pos = suc f.pos })

unfoldable pub next_char : ℕ → Fields → Text → Option Fields
unfolding next_digit next_field
next_char c f rest =
    if leb b'0' c && leb c b'9'
    then next_digit (c - b'0') f
    else if c == b'.'
    then next_field f rest
    else none

unfoldable pub fields_from : Fields → Text → Option ℕ
unfolding next_char
fields_from f [] = if ltb f.pos 3 then none else some (f.acc * 256 + f.val)
fields_from f (c ∷ s) = elim (next_char c f s) [ none ↦ none | some f' ↦ fields_from f' s ]

unfoldable pub parse_v4 : Text → Option ℕ
unfolding fields_from
parse_v4 s = fields_from (record { acc = 0; val = 0; digits = 0; pos = 0 }) s

-- The hexadecimal digits of a group: how many, their value, and what follows them.
unfoldable pub hex_group : ℕ → ℕ → Text → Option (ℕ × ℕ × Text)
unfolding digit_value
hex_group off acc [] = some (off, acc, [])
hex_group off acc (c ∷ s) = elim (digit_value c) [
  | none ↦ some (off, acc, c ∷ s)
  | some d ↦ if ltb 3 off then none else hex_group (suc off) (acc * 16 + d) s
]

-- The number of `i` bytes, and where the zeros of an ellipsis go among them: `at` bytes from the
-- start. All sixteen bytes leave no room for one.
unfoldable pub expand : ℕ → ℕ → Option ℕ → Option ℕ
expand i a none = if i == 16 then some a else none
expand i a (some at) =
    if leb 16 i
    then none
    else let low = 256 ^ (i - at) in some (a / low * 256 ^ (16 - at) + a % low)

-- Where the loop of `parseIPv6` stands: at its end with the address, or before one more group, after
-- `i` bytes with their number and the place of the ellipsis.
pub data Progress : Type 0 where
  ended : Option ℕ → Progress
  going : ℕ → ℕ → Option ℕ → Text → Progress

-- What follows the colon after a group.
unfoldable pub after_colon : ℕ → ℕ → Option ℕ → Text → Progress
unfolding expand
after_colon i a ellipsis [] = ended none
after_colon i a none (c ∷ []) =
    if c == b':' then ended (expand i a (some i)) else going i a none (c ∷ [])
after_colon i a none (c ∷ d ∷ s) =
    if c == b':' then going i a (some i) (d ∷ s) else going i a none (c ∷ d ∷ s)
after_colon i a (some at) (c ∷ s) = if c == b':' then ended none else going i a (some at) (c ∷ s)

-- The last four bytes in dotted form.
unfoldable pub dotted_tail : ℕ → ℕ → Option ℕ → Text → Option ℕ
unfolding parse_v4 expand
dotted_tail i a none s =
    if i == 12
    then elim (parse_v4 s) [ none ↦ none | some v ↦ expand 16 (a * 2 ^ 32 + v) none ]
    else none
dotted_tail i a (some at) s =
    if leb i 12
    then elim (parse_v4 s) [ none ↦ none | some v ↦ expand (i + 4) (a * 2 ^ 32 + v) (some at) ]
    else none

-- One round.
unfoldable pub next_group : ℕ → ℕ → Option ℕ → Text → Progress
unfolding hex_group after_colon dotted_tail
next_group i a ellipsis s = elim (hex_group 0 0 s) [
  | none ↦ ended none
  | some (zero, _, _) ↦ ended none
  | some (suc _, group, []) ↦ ended (expand (i + 2) (a * 65536 + group) ellipsis)
  | some (suc _, group, c ∷ rest) ↦
      if c == b'.'
      then ended (dotted_tail i a ellipsis s)
      else if c == b':'
      then after_colon (i + 2) (a * 65536 + group) ellipsis rest
      else ended none
]

-- Eight rounds fill the sixteen bytes; a zone is an error already at its `%`.
unfoldable pub groups : ℕ → Progress → Option ℕ
unfolding next_group
groups rounds (ended result) = result
groups zero (going i a ellipsis s) = none
groups (suc rounds) (going i a ellipsis s) = groups rounds (next_group i a ellipsis s)

unfoldable pub parse_v6 : Text → Option ℕ
unfolding groups
parse_v6 (c ∷ d ∷ s) =
    if c == b':' && d == b':'
    then elim s [ [] ↦ some 0 | e ∷ rest ↦ groups 8 (going 0 0 (some 0) (e ∷ rest)) ]
    else groups 8 (going 0 0 none (c ∷ d ∷ s))
parse_v6 s = groups 8 (going 0 0 none s)

-- `To4` of the sixteen bytes.
unfoldable pub of_v6 : ℕ → Ip
of_v6 a = if a / 2 ^ 32 == 0xffff then v4 (a % 2 ^ 32) else v6 a

-- The first dot, colon or percent sign decides what `ParseAddr` reads: the address, and whether it
-- has 32 bits.
pub data Kind : Type 0 where
  dotted : Kind
  colons : Kind
  neither : Kind

unfoldable pub kind : Text → Kind
kind [] = neither
kind (c ∷ s) =
    let rest = kind s in
    if c == b'.' then dotted else if c == b':' then colons else if c == b'%' then neither else rest

unfoldable pub parse_ip : Text → Option Ip
unfolding kind parse_v4 parse_v6 of_v6
parse_ip s = elim (kind s) [
  | dotted ↦ elim (parse_v4 s) [ none ↦ none | some a ↦ some (v4 a) ]
  | colons ↦ elim (parse_v6 s) [ none ↦ none | some a ↦ some (of_v6 a) ]
  | neither ↦ none
]

-- `dtoi`, which has to read all of the text: the number so far, and what is left.
unfoldable pub dtoi_from : ℕ → Text → Option ℕ
dtoi_from n [] = some n
dtoi_from n (c ∷ s) =
    let m = n * 10 + (c - b'0') in
    let rest = dtoi_from m s in if leb b'0' c && leb c b'9' && ltb m 0xffffff then rest else none

unfoldable pub dtoi : Text → Option ℕ
unfolding dtoi_from
dtoi [] = none
dtoi (c ∷ s) = dtoi_from 0 (c ∷ s)

-- The parts before and after the first slash.
unfoldable pub cut : Text → Option (Text × Text)
cut [] = none
cut (c ∷ s) = elim (c == b'/') [
  | true ↦ some ([], s)
  | false ↦ elim (cut s) [ none ↦ none | some (before, after) ↦ some (c ∷ before, after) ]
]

-- An IPv6 prefix of more than 96 bits whose address has four bytes is an IPv4 prefix to `Contains`.
unfoldable pub net_of_v6 : ℕ → ℕ → Net
net_of_v6 a prefix =
    let host = 2 ^ (128 - prefix) in
    let masked = a / host * host in
    if masked / 2 ^ 32 == 0xffff then net4 (masked % 2 ^ 32) (prefix - 96) else net6 masked prefix

-- The network of a prefix length that is at most the number of bits.
unfoldable pub sized : ℕ → (ℕ → Net) → Text → Option Net
unfolding dtoi
sized bits network mask = elim (dtoi mask) [
  | none ↦ none
  | some prefix ↦ if leb prefix bits then some (network prefix) else none
]

unfoldable pub parse_cidr : Text → Option Net
unfolding cut kind parse_v4 parse_v6 net_of_v6 sized
parse_cidr s = elim (cut s) [
  | none ↦ none
  | some (addr, mask) ↦ elim (kind addr) [
    | dotted ↦ elim (parse_v4 addr) [ none ↦ none | some a ↦ sized 32 (net4 a) mask ]
    | colons ↦ elim (parse_v6 addr) [ none ↦ none | some a ↦ sized 128 (net_of_v6 a) mask ]
    | neither ↦ none
  ]
]
