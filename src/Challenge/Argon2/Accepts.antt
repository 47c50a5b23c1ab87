-- ===== src/Challenge/Argon2/Accepts.antt =====
-- What a result of the memory-hard puzzle is.
use Prim.Native.Nat.{bit_or, bit_xor, bit_xor-bitwise, differ}
use eu_trust_sdk.Base.{
  ℕ, zero, suc, ◌+◌, ◌/◌, ◌%◌, ◌≤◌, ◌<◌, ◌≡◌, ◌↔◌, refl, sym, ap, ◌∙◌, arith, some, [], ◌∷◌, codes,
  length, ◌==◌, Bool-cases, Option-cases, inl, inr, Text,
}
use eu_trust_sdk.Base.Bits.{bit_or_step, bit_xor_step, bit_xor_cancel}
use eu_trust_sdk.Base.Hex
use eu_trust_sdk.Crypto.{Crypto, IsCrypto}
use eu_trust_sdk.Challenge.Error.{ok}
use eu_trust_sdk.Challenge.Argon2.{Argon2Challenge, difference, verify_argon2}

-- A disjunction is 0 only where both sides are.
bit_or-zero_fuel : (n a b : ℕ) → a ≤ n → b ≤ n → bit_or a b ≡ 0 → (a ≡ 0) × (b ≡ 0)
bit_or-zero_fuel zero a b ha hb e = (omega arith, omega arith)
bit_or-zero_fuel (suc n) a b ha hb e =
    let halves =
      bit_or-zero_fuel n (a / 2) (b / 2) (omega arith) (omega arith)
        (omega (arith, bit_or_step a b)) in
    (omega (arith, bit_or_step a b, halves), omega (arith, bit_or_step a b, halves))

zero-bit_xor : (b : ℕ) → bit_xor 0 b ≡ b
zero-bit_xor b = simp bit_xor-bitwise

bit_xor-eq : (a b : ℕ) → bit_xor a b ≡ 0 → a ≡ b
bit_xor-eq a b e = sym (bit_xor_cancel a b) ∙ ap (λ (t : ℕ). bit_xor t b) e ∙ zero-bit_xor b

differ_self : (x : ℕ) → x < 2 → differ x x ≡ 0
differ_self zero h = refl
differ_self (suc zero) h = refl
differ_self (suc (suc x)) h = absurd (omega arith)

bit_xor_self_fuel : (n a : ℕ) → a ≤ n → bit_xor a a ≡ 0
bit_xor_self_fuel n zero h = zero-bit_xor 0
bit_xor_self_fuel zero (suc a) h = absurd (omega arith)
bit_xor_self_fuel (suc n) (suc a) h = omega (
  arith,
  bit_xor_step (suc a) (suc a),
  bit_xor_self_fuel n (suc a / 2) (omega arith),
  differ_self (suc a % 2) (omega arith),
)

difference-step : (d x y : ℕ) → (bit_or d (bit_xor x y) ≡ 0) ↔ ((d ≡ 0) × (x ≡ y))
difference-step d x y = (
  λ e.
      let (left, right) =
        bit_or-zero_fuel (d + bit_xor x y) d (bit_xor x y) (omega arith) (omega arith) e in
      (left, bit_xor-eq x y right),
  λ (left, right). rw (left, right, bit_xor_self_fuel y y (omega arith)),
)

difference_iff :
    (d : ℕ) (xs ys : Text)
    → length xs ≡ length ys
    → (difference d xs ys ≡ 0) ↔ ((d ≡ 0) × (xs ≡ ys))
unfolding difference
difference_iff d [] [] h = (λ e. (e, refl), λ e. e.0)
difference_iff d [] (y ∷ ys) h = absurd (omega arith)
difference_iff d (x ∷ xs) [] h = absurd (omega arith)
difference_iff d (x ∷ xs) (y ∷ ys) h =
    ground
      (arith, difference_iff (bit_or d (bit_xor x y)) xs ys (omega arith), difference-step d x y)

some-injective : {a b : Text} → some a ≡ some b → a ≡ b
some-injective e = cc

module _ (c : Crypto) (laws : IsCrypto c) where
  -- A text is accepted as the result of a memory-hard puzzle exactly when it is a hex text of the
  -- bytes that Argon2 gives for the puzzle, where the puzzle's own nonce is a hex text.
  pub verify_argon2_iff :
      (ch : Argon2Challenge) (nonce result : Text)
      → Hex.decode ch.nonce ≡ some nonce
      → (verify_argon2 c ch result ≡ ok tt) ↔ (
          Hex.decode result
          ≡ some (
              c.argon2_id
                (codes "sovereign-trust-challenge")
                nonce
                ch.iterations
                ch.memory
                ch.parallelism
                ch.key_length))
  unfolding verify_argon2
  verify_argon2_iff ch nonce result e =
      let expected =
        c.argon2_id (codes "sovereign-trust-challenge") nonce ch.iterations ch.memory ch.parallelism
          ch.key_length in
      let long =
        laws.argon2_length (codes "sovereign-trust-challenge") nonce ch.iterations ch.memory
          ch.parallelism ch.key_length in
      elim (Option-cases (Hex.decode result)) [
        | inl bad ↦ rw (e, bad, verify_argon2) (λ p. cc, λ p. cc)
        | inr (got, decoded) ↦ elim (Bool-cases (length got == ch.key_length)) [
          | inr short ↦
              rw (e, decoded, short, verify_argon2)
                (
                  λ p. cc,
                  λ p.
                      let size = ap (length {A = ℕ}) (some-injective p) in
                      absurd (ground (arith, long, short, size)),
                )
          | inl same ↦
              let same_length : length expected ≡ length got = ground (arith, same, long) in
              let (to, from) = difference_iff 0 expected got same_length in
              elim (Bool-cases (difference 0 expected got == 0)) [
                | inl zero_diff ↦
                    let equal : expected ≡ got = (to (ground (arith, zero_diff))).1 in
                    rw (e, decoded, same, zero_diff, verify_argon2)
                      (λ p. ap some (sym equal), λ p. refl)
                | inr some_diff ↦
                    rw (e, decoded, same, some_diff, verify_argon2)
                      (
                        λ p. cc,
                        λ p.
                            let none_left = from (refl, sym (some-injective p)) in
                            absurd (ground (arith, some_diff, none_left)),
                      )
              ]
        ]
      ]
