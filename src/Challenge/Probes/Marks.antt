-- ===== src/Challenge/Probes/Marks.antt =====
-- The map `selected` of `selectProbes`: what a write to it changes, and how many indices it holds.
use native.Mathlib.Numerals.{add-one}
use eu_trust_sdk.Base.{
  ℕ, zero, suc, ◌+◌, ◌≤◌, ◌<◌, ◌≡◌, ◌≢◌, refl, ap, Bool, true, false, arith, if◌then◌else◌,
}
use eu_trust_sdk.Challenge.Probes.{mark}

-- How many of the first `n` indices are selected.
unfoldable pub tally : (ℕ → Bool) → ℕ → ℕ
tally selected zero = 0
tally selected (suc n) = (if selected n then 1 else 0) + tally selected n

pub tally-mark_above :
    (selected : ℕ → Bool) (i n : ℕ) → n ≤ i → tally (mark selected i) n ≡ tally selected n
unfolding tally
tally-mark_above selected i zero h = refl
tally-mark_above selected i (suc n) h = ground (arith, tally-mark_above selected i n)

pub tally-mark :
    (selected : ℕ → Bool) (i n : ℕ)
    → selected i ≡ false
    → i < n
    → tally (mark selected i) n ≡ tally selected n + 1
unfolding tally
tally-mark selected i zero e h = absurd (omega arith)
tally-mark selected i (suc n) e h =
    ground (arith, tally-mark selected i n e, tally-mark_above selected i n)

pub tally-none : (n : ℕ) → tally (λ j. false) n ≡ 0
unfolding tally
tally-none zero = refl
tally-none (suc n) = omega (arith, tally-none n)

pub tally_next :
    (selected : ℕ → Bool) (n : ℕ)
    → tally selected (n + 1) ≡ (if selected n then 1 else 0) + tally selected n
unfolding tally
tally_next selected n = rw add-one

pub mark_keeps : (selected : ℕ → Bool) (i j : ℕ) → selected j ≡ true → mark selected i j ≡ true
mark_keeps selected i j e = ground (arith, e)

pub mark_self : (selected : ℕ → Bool) (i : ℕ) → mark selected i i ≡ true
mark_self selected i = ground arith

pub ne_of_marks : (selected : ℕ → Bool) (i j : ℕ) → selected i ≡ false → selected j ≡ true → j ≢ i
ne_of_marks selected i j new old e = cc (ap selected e)
