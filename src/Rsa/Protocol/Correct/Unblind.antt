-- ===== src/Rsa/Protocol/Correct/Unblind.antt =====
-- The arithmetic of blinding: the factor raised to the exponent goes away with its inverse.
use native.Mathlib.Nat.{mod-eq_of_lt, mul_comm, mul_assoc, mul-one}
use eu_trust_sdk.Base.{ℕ, ◌*◌, ◌%◌, ◌^◌, ◌<◌, ◌≡◌, ap, sym, ◌∙◌}
use eu_trust_sdk.Rsa.Arith.{mul-mod_left, pow-mod, mul-pow, one-pow}

mul-mod_right : (a b n : ℕ) → a * (b % n) % n ≡ a * b % n
mul-mod_right a b n =
    ap (λ (t : ℕ). t % n) (mul_comm a (b % n))
    ∙ mul-mod_left b a n
    ∙ ap (λ (t : ℕ). t % n) (mul_comm b a)

module _ (n r inv e : ℕ) (inverse : r * inv % n ≡ 1 % n) where
  factors_cancel : (r ^ e % n) * inv ^ e % n ≡ 1 % n
  factors_cancel =
      mul-mod_left (r ^ e) (inv ^ e) n
      ∙ ap (λ (t : ℕ). t % n) (sym (mul-pow r inv e))
      ∙ sym (pow-mod (r * inv) e n)
      ∙ ap (λ (t : ℕ). t ^ e % n) inverse
      ∙ pow-mod 1 e n
      ∙ ap (λ (t : ℕ). t % n) (one-pow e)

  -- If `s` to the power `e` is the blinded `m`, then the unblinded `s` to that power is `m`.
  pub unblind : (s m : ℕ) → s ^ e % n ≡ m * (r ^ e % n) % n → m < n → (s * inv % n) ^ e % n ≡ m
  unblind s m signed small =
      pow-mod (s * inv) e n
      ∙ ap (λ (t : ℕ). t % n) (mul-pow s inv e)
      ∙ sym (mul-mod_left (s ^ e) (inv ^ e) n)
      ∙ ap (λ (t : ℕ). t * inv ^ e % n) signed
      ∙ mul-mod_left (m * (r ^ e % n)) (inv ^ e) n
      ∙ ap (λ (t : ℕ). t % n) (mul_assoc m (r ^ e % n) (inv ^ e))
      ∙ sym (mul-mod_right m ((r ^ e % n) * inv ^ e) n)
      ∙ ap (λ (t : ℕ). m * t % n) factors_cancel
      ∙ mul-mod_right m 1 n
      ∙ ap (λ (t : ℕ). t % n) (mul-one m)
      ∙ mod-eq_of_lt small
