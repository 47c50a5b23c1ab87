-- ===== src/Temperature/Reputation/Ranges.antt =====
-- The prefixes as ranges of addresses, and the scores.
use eu_trust_sdk.Base.{
  ℕ, ◌+◌, ◌-◌, ◌*◌, ◌/◌, ◌^◌, ◌≤◌, ◌<◌, ◌≡◌, ◌↔◌, refl, arith, Bool, true, false, some, List, [],
  ◌∷◌, Bool-cases, inl, inr, Text, suc, ◌≢◌, ◌⊎◌, Option-cases,
}
use native.Mathlib.Nat.{one-le-pow, div-lt_iff_lt-mul, le-div_iff_mul-le}
use eu_trust_sdk.Temperature.Network.{v4, Net, net4, net6, contains}
use eu_trust_sdk.Temperature.Network.Parse.{parse_ip}
use eu_trust_sdk.Temperature.Reputation.{in_any, tor, cloud, reputation_of}

-- The address is in the range of the prefix: from its first address on, as many as it has.
abbrev pub IsWithin : Net → ℕ → Type 0
IsWithin (net4 b prefix) a =
    let size = 2 ^ (32 - prefix) in (b / size * size ≤ a) × (a < b / size * size + size)
IsWithin (net6 _ _) a = ⊥

quotient_iff : (a q p : ℕ) → 0 < p → (a / p ≡ q) ↔ ((q * p ≤ a) × (a < q * p + p))
quotient_iff a q p pos = (
  λ e.
      let low : q * p ≤ a = (le-div_iff_mul-le pos).0 (omega (arith, e)) in
      let high : a < suc q * p = (div-lt_iff_lt-mul pos).0 (omega (arith, e)) in
      (low, omega (arith, high)),
  λ (low, high).
      let above : q ≤ a / p = (le-div_iff_mul-le pos).1 low in
      let below : a / p < suc q = (div-lt_iff_lt-mul pos).1 (omega (arith, high)) in omega arith,
)

contains_iff : (n : Net) (a : ℕ) → (contains n (v4 a) ≡ true) ↔ IsWithin n a
unfolding contains
contains_iff (net4 b prefix) a = ground (
  arith,
  quotient_iff a (b / 2 ^ (32 - prefix)) (2 ^ (32 - prefix))
      (one-le-pow (32 - prefix) 2 (omega arith)),
)
contains_iff (net6 b prefix) a = (λ e. absurd cc, λ h. absurd h)

apart : {b : Bool} → b ≡ true → b ≢ false
apart h e = cc

-- The address is in the range of one of the prefixes.
abbrev pub IsInside : List Net → ℕ → Type 0
IsInside [] a = ⊥
IsInside (n ∷ nets) a = IsWithin n a ⊎ IsInside nets a

in_any_iff : (nets : List Net) (a : ℕ) → (in_any nets (v4 a) ≡ true) ↔ IsInside nets a
unfolding in_any
in_any_iff [] a = (λ e. absurd cc, λ h. absurd h)
in_any_iff (n ∷ nets) a = elim (Bool-cases (contains n (v4 a))) [
  | inl there ↦ rw there (λ e. inl ((contains_iff n a).0 there), λ h. refl)
  | inr other ↦ rw other (
    λ e. inr ((in_any_iff nets a).0 e),
    λ h. elim h [
      | inl inside ↦ absurd (apart ((contains_iff n a).1 inside) other)
      | inr later ↦ (in_any_iff nets a).1 later
    ],
  )
]

-- A text that is read as an IPv4 address scores 100 exactly when that it lies in the range of one of the Tor prefixes, and 80
-- exactly when it lies in none of these but in the range of one of the cloud prefixes; no address
-- scores more than 100.
pub reputation_of_iff :
    (ip : Text) (a : ℕ)
    → parse_ip ip ≡ some (v4 a)
    → ((reputation_of ip ≡ 100) ↔ IsInside tor a)
      × ((reputation_of ip ≡ 80) ↔ ((IsInside tor a → ⊥) × IsInside cloud a))
      × (reputation_of ip ≤ 100)
unfolding reputation_of
reputation_of_iff ip a e =
    let (tor_in, tor_out) = in_any_iff tor a in
    let (cloud_in, cloud_out) = in_any_iff cloud a in
    elim (Bool-cases (in_any tor (v4 a))) [
      | inl exit ↦
          rw (e, exit, reputation_of)
            (
              (λ p. tor_in exit, λ h. refl),
              (λ p. absurd (omega arith), λ h. absurd (h.0 (tor_in exit))),
              omega arith,
            )
      | inr no_exit ↦ elim (Bool-cases (in_any cloud (v4 a))) [
        | inl hosted ↦
            rw (e, no_exit, hosted, reputation_of)
              (
                (λ p. absurd (omega arith), λ h. absurd (apart (tor_out h) no_exit)),
                (λ p. (λ h. apart (tor_out h) no_exit, cloud_in hosted), λ h. refl),
                omega arith,
              )
        | inr home ↦
            rw (e, no_exit, home, reputation_of)
              (
                (λ p. absurd (omega arith), λ h. absurd (apart (tor_out h) no_exit)),
                (λ p. absurd (omega arith), λ h. absurd (apart (cloud_out h.1) home)),
                omega arith,
              )
      ]
    ]

-- No text scores more than 100.
pub reputation_of-le : (ip : Text) → reputation_of ip ≤ 100
unfolding reputation_of
reputation_of-le ip = elim (Option-cases (parse_ip ip)) [
  | inl bad ↦ rw (bad, reputation_of) (omega arith)
  | inr (parsed, read) ↦ elim (Bool-cases (in_any tor parsed)) [
    | inl exit ↦ rw (read, exit, reputation_of) (omega arith)
    | inr no_exit ↦ elim (Bool-cases (in_any cloud parsed)) [
      | inl hosted ↦ rw (read, no_exit, hosted, reputation_of) (omega arith)
      | inr home ↦ rw (read, no_exit, home, reputation_of) (omega arith)
    ]
  ]
]
