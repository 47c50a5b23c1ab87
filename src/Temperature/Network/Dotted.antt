-- ===== src/Temperature/Network/Dotted.antt =====
-- IPv4 addresses as they are written, in four decimal fields.
use eu_trust_sdk.Base.{
  ℕ, suc, ◌+◌, ◌*◌, ◌/◌, ◌%◌, ◌<◌, ◌≡◌, ◌∙◌, refl, arith, some, [], ◌∷◌, ◌++◌, ltb, if◌then◌else◌,
  Text, ◌⊎◌, inl, inr, Bool-cases, ltb→lt, sym,
}
use eu_trust_sdk.Temperature.Network.{v4}
use eu_trust_sdk.Temperature.Network.Parse.{
  Fields, next_digit, next_field, next_char, fields_from, parse_v4, dotted as is_dotted, kind,
  parse_ip,
}

abbrev digit : ℕ → ℕ
digit d = d + b'0'

-- A byte in decimal, without leading zeros.
unfoldable pub decimal : ℕ → Text
decimal v =
    if ltb v 10
    then digit v ∷ []
    else if ltb v 100
    then digit (v / 10) ∷ digit (v % 10) ∷ []
    else digit (v / 100) ∷ digit (v / 10 % 10) ∷ digit (v % 10) ∷ []

-- Four bytes with dots between them, and the number that they stand for.
abbrev pub dotted : ℕ → ℕ → ℕ → ℕ → Text
dotted a b c d =
    decimal a ++ (b'.' ∷ (decimal b ++ (b'.' ∷ (decimal c ++ (b'.' ∷ (decimal d ++ []))))))

abbrev pub address : ℕ → ℕ → ℕ → ℕ → ℕ
address a b c d = ((a * 256 + b) * 256 + c) * 256 + d

digit_step :
    (f : Fields) (d val : ℕ) (rest : Text)
    → d < 10
    → f.val * 10 + d ≡ val
    → val < 256
    → (f.digits ≡ 0) ⊎ (0 < f.val)
    → fields_from f (digit d ∷ rest)
      ≡ fields_from (record { acc = f.acc; val = val; digits = suc f.digits; pos = f.pos }) rest
unfolding fields_from next_char next_digit
digit_step f d val rest small e byte go = ground arith

dot_step :
    (acc val n pos : ℕ) (c : ℕ) (rest : Text)
    → pos < 3
    → fields_from (record { acc = acc; val = val; digits = suc n; pos = pos }) (b'.' ∷ c ∷ rest)
      ≡ fields_from
          (record { acc = acc * 256 + val; val = 0; digits = 0; pos = suc pos })
          (c ∷ rest)
unfolding fields_from next_char next_field
dot_step acc val n pos c rest h = ground arith

kind-decimal : (v : ℕ) (rest : Text) → v < 256 → kind (decimal v ++ (b'.' ∷ rest)) ≡ is_dotted
unfolding decimal kind
kind-decimal v rest h = ground arith

-- Where the reading of a field stands at its start, and after it.
abbrev opened : ℕ → ℕ → Fields
opened acc pos = record { acc = acc; val = 0; digits = 0; pos = pos }

abbrev filled : ℕ → ℕ → ℕ → ℕ → Fields
filled acc pos v n = record { acc = acc; val = v; digits = suc n; pos = pos }

byte_field :
    (acc pos v : ℕ) (rest : Text)
    → v < 256
    → (n : ℕ) × (fields_from (opened acc pos) (decimal v ++ rest)
        ≡ fields_from (filled acc pos v n) rest)
unfolding decimal
byte_field acc pos v rest h = elim (Bool-cases (ltb v 10)) [
  | inl one ↦
      rw (one, decimal)
        (0, digit_step (opened acc pos) v v rest (ltb→lt v 10 one) (omega arith) h (inl refl))
  | inr more ↦ elim (Bool-cases (ltb v 100)) [
    | inl two ↦
        let positive : 0 < v / 10 = ground arith in
        let first =
          digit_step (opened acc pos) (v / 10) (v / 10) (digit (v % 10) ∷ rest) (ground arith)
            (omega arith) (omega arith) (inl refl) in
        let second =
          digit_step (filled acc pos (v / 10) 0) (v % 10) v rest (omega arith) (omega arith) h
            (inr positive) in
        rw (more, two, decimal) (1, first ∙ second)
    | inr three ↦
        let positive : 0 < v / 100 = ground arith in
        let first =
          digit_step (opened acc pos) (v / 100) (v / 100)
            (digit (v / 10 % 10) ∷ digit (v % 10) ∷ rest) (omega arith) (omega arith) (omega arith)
            (inl refl) in
        let second =
          digit_step (filled acc pos (v / 100) 0) (v / 10 % 10) (v / 10) (digit (v % 10) ∷ rest)
            (omega arith) (omega arith) (omega arith) (inr positive) in
        let third =
          digit_step (filled acc pos (v / 10) 1) (v % 10) v rest (omega arith) (omega arith) h
            (inr (omega arith)) in
        rw (more, three, decimal) (2, first ∙ second ∙ third)
  ]
]

-- A field is not empty.
decimal-cons : (v : ℕ) (rest : Text) → (c : ℕ) × (cs : Text) × (decimal v ++ rest ≡ c ∷ cs)
unfolding decimal
decimal-cons v rest = elim (Bool-cases (ltb v 10)) [
  | inl one ↦ rw (one, decimal) (digit v, rest, refl)
  | inr more ↦ elim (Bool-cases (ltb v 100)) [
    | inl two ↦ rw (more, two, decimal) (digit (v / 10), digit (v % 10) ∷ rest, refl)
    | inr three ↦
        rw (more, three, decimal)
          (digit (v / 100), digit (v / 10 % 10) ∷ digit (v % 10) ∷ rest, refl)
  ]
]

field_dot :
    (acc pos v next w : ℕ) (rest : Text)
    → v < 256
    → pos < 3
    → acc * 256 + v ≡ next
    → fields_from (opened acc pos) (decimal v ++ (b'.' ∷ (decimal w ++ rest)))
      ≡ fields_from (opened next (suc pos)) (decimal w ++ rest)
field_dot acc pos v next w rest h small sum =
    let (c, cs, e) = decimal-cons w rest in
    let (n, read) = byte_field acc pos v (b'.' ∷ c ∷ cs) h in
    rw (sym sum, e) (read ∙ dot_step acc v n pos c cs small)

last_field :
    (acc v : ℕ) → v < 256 → fields_from (opened acc 3) (decimal v ++ []) ≡ some (acc * 256 + v)
unfolding fields_from
last_field acc v h = let (n, read) = byte_field acc 3 v [] h in read

parse_v4-dotted :
    (a b c d : ℕ)
    → a < 256
    → b < 256
    → c < 256
    → d < 256
    → parse_v4 (dotted a b c d) ≡ some (address a b c d)
unfolding parse_v4
parse_v4-dotted a b c d ha hb hc hd =
    field_dot 0 0 a a b (b'.' ∷ (decimal c ++ (b'.' ∷ (decimal d ++ [])))) ha (omega arith)
      (omega arith)
    ∙ field_dot a 1 b (a * 256 + b) c (b'.' ∷ (decimal d ++ [])) hb (omega arith) refl
    ∙ field_dot (a * 256 + b) 2 c ((a * 256 + b) * 256 + c) d [] hc (omega arith) refl
    ∙ last_field ((a * 256 + b) * 256 + c) d hd

-- What is written is read back.
pub parse_ip-dotted :
    (a b c d : ℕ)
    → a < 256
    → b < 256
    → c < 256
    → d < 256
    → parse_ip (dotted a b c d) ≡ some (v4 (address a b c d))
unfolding parse_ip
parse_ip-dotted a b c d ha hb hc hd =
    rw
      (
        kind-decimal a (decimal b ++ (b'.' ∷ (decimal c ++ (b'.' ∷ (decimal d ++ []))))) ha,
        parse_v4-dotted a b c d ha hb hc hd,
        parse_ip,
      )
      refl
