-- ===== src/Temperature/Store/Subnets.antt =====
-- Which addresses `subnetKey` counts together.
use eu_trust_sdk.Base.{
  ℕ, ◌+◌, ◌*◌, ◌/◌, ◌^◌, ◌<◌, ◌≡◌, ◌∙◌, sym, ap, refl, arith, Option, some, none, [], ◌∷◌, ◌++◌,
  Text, codes, ◌↔◌, take,
}
use eu_trust_sdk.Base.Bytes.{IsBytes, fill_bytes, to_int, to_int-fill_bytes, fill_bytes-IsBytes}
use eu_trust_sdk.Base.Hex
use eu_trust_sdk.Base.Hex.{decode-encode}
use eu_trust_sdk.Temperature.Network.Dotted.{dotted, address, parse_ip-dotted}
use eu_trust_sdk.Temperature.Store.{subnet_key}

-- The three bytes that a key spells, as a number.
abbrev digits_of : Text → Text
digits_of [] = []
digits_of (c ∷ s) = take 6 s

abbrev number : Option Text → ℕ
number none = 0
number (some bs) = to_int bs

abbrev pub prefix : ℕ → ℕ → ℕ → ℕ
prefix a b c = (a * 256 + b) * 256 + c

digits_of-key :
    (p : ℕ)
    → digits_of (codes "?" ++ Hex.encode (fill_bytes 3 p) ++ codes ".0/24")
      ≡ Hex.encode (fill_bytes 3 p)
unfolding fill_bytes Hex.encode
digits_of-key p = refl

subnet_key-prefix :
    (a b c d : ℕ)
    → IsBytes (a ∷ b ∷ c ∷ d ∷ [])
    → subnet_key (dotted a b c d)
      ≡ codes "?" ++ Hex.encode (fill_bytes 3 (prefix a b c)) ++ codes ".0/24"
unfolding subnet_key
subnet_key-prefix a b c d h =
    let high : address a b c d / 256 ≡ prefix a b c = omega (arith, h.1.1.1.0) in
    rw (parse_ip-dotted a b c d h.0 h.1.0 h.1.1.0 h.1.1.1.0, high, subnet_key) refl

subnet_key-number :
    (a b c d : ℕ)
    → IsBytes (a ∷ b ∷ c ∷ d ∷ [])
    → number (Hex.decode (digits_of (subnet_key (dotted a b c d)))) ≡ prefix a b c
subnet_key-number a b c d h =
    let small : prefix a b c < 256 ^ 3 = omega (arith, h.0, h.1.0, h.1.1.0) in
    rw
      (
        subnet_key-prefix a b c d h,
        digits_of-key (prefix a b c),
        decode-encode (fill_bytes 3 (prefix a b c)) (fill_bytes-IsBytes 3 (prefix a b c)),
      )
      (to_int-fill_bytes 3 (prefix a b c) small)

-- Two IPv4 addresses in dotted form are counted in one subnet exactly when they have their first
-- three bytes in common.
pub subnet_key-eq_iff :
    (a b c d a' b' c' d' : ℕ)
    → IsBytes (a ∷ b ∷ c ∷ d ∷ [])
    → IsBytes (a' ∷ b' ∷ c' ∷ d' ∷ [])
    → (subnet_key (dotted a b c d) ≡ subnet_key (dotted a' b' c' d'))
      ↔ ((a ≡ a') × (b ≡ b') × (c ≡ c'))
subnet_key-eq_iff a b c d a' b' c' d' h h' = (
  λ e.
      let same : prefix a b c ≡ prefix a' b' c' =
        sym (subnet_key-number a b c d h)
        ∙ ap (λ k. number (Hex.decode (digits_of k))) e
        ∙ subnet_key-number a' b' c' d' h' in
      (
        omega (arith, same, h.1.0, h.1.1.0, h'.1.0, h'.1.1.0),
        omega (arith, same, h.1.0, h.1.1.0, h'.1.0, h'.1.1.0),
        omega (arith, same, h.1.1.0, h'.1.1.0),
      ),
  λ (ea, eb, ec).
      let same : prefix a b c ≡ prefix a' b' c' = rw (ea, eb, ec) refl in
      rw (subnet_key-prefix a b c d h, subnet_key-prefix a' b' c' d' h', same) refl,
)
