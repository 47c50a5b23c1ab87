-- ===== src/Temperature/Store/History.antt =====
-- The probe history of an address: its last twenty results, and the signal made of them.
use native.Mathlib.Nat.{zero-add, suc-add}
use eu_trust_sdk.Base.{
  ℕ, zero, suc, ◌+◌, ◌-◌, ◌*◌, ◌/◌, ◌≤◌, ◌<◌, ◌≡◌, refl, ap, sym, ◌∙◌, Bool, false, List, [], ◌∷◌,
  ◌++◌, arith, length, length-append, length-drop, drop, ltb, ◌==◌, Bool-cases, ltb→lt, inl, inr,
}
use mathlib.Core.Path.{◌≡⟨◌⟩◌, ◌∎}
use eu_trust_sdk.Double.Percent.{percent-exact}
use eu_trust_sdk.Temperature.Store.{last_twenty, fails, probe_signal}

module _ {A : Type 0} where
  drop-append : (n : ℕ) (xs ys : List A) → n ≤ length xs → drop n (xs ++ ys) ≡ drop n xs ++ ys
  drop-append zero xs ys h = refl
  drop-append (suc n) [] ys h = absurd (omega arith)
  drop-append (suc n) (x ∷ xs) ys h = drop-append n xs ys (omega arith)

  drop-drop : (n m : ℕ) (xs : List A) → drop n (drop m xs) ≡ drop (m + n) xs
  drop-drop n zero xs = rw zero-add
  drop-drop zero (suc m) [] = rw suc-add
  drop-drop (suc n) (suc m) [] = rw suc-add
  drop-drop n (suc m) (x ∷ xs) = rw suc-add (drop-drop n m xs)

last_twenty-drop : (h : List Bool) → last_twenty h ≡ drop (length h - 20) h
unfolding last_twenty
last_twenty-drop h = elim (Bool-cases (ltb 20 (length h))) [
  | inl long ↦ rw long
  | inr short ↦ let e : length h - 20 ≡ 0 = ground (arith, short) in rw (short, e)
]

-- At most twenty results are kept.
pub length-last_twenty : (h : List Bool) → length (last_twenty h) ≤ 20
length-last_twenty h = rw last_twenty-drop (omega (arith, length-drop (length h - 20) h))

last_twenty_short : (h : List Bool) → ltb 20 (length h) ≡ false → last_twenty h ≡ h
unfolding last_twenty
last_twenty_short h short = rw short

last_twenty-append_long :
    (h : List Bool) (b : Bool)
    → 20 < length h
    → last_twenty (last_twenty h ++ b ∷ []) ≡ last_twenty (h ++ b ∷ [])
last_twenty-append_long h b long =
    let k = length h - 20 in
    let kept = drop k h in
    let twenty : length kept ≡ 20 = omega (arith, length-drop k h) in
    let one_more : length (kept ++ b ∷ []) - 20 ≡ 1 =
      omega (arith, length-append kept (b ∷ []), twenty) in
    let all : length (h ++ b ∷ []) - 20 ≡ k + 1 = omega (arith, length-append h (b ∷ [])) in
    last_twenty (last_twenty h ++ b ∷ [])
    ≡⟨ ap (λ (t : List Bool). last_twenty (t ++ b ∷ [])) (last_twenty-drop h) ⟩
      last_twenty (kept ++ b ∷ [])
    ≡⟨ last_twenty-drop (kept ++ b ∷ []) ∙ ap (λ (n : ℕ). drop n (kept ++ b ∷ [])) one_more ⟩
      drop 1 (kept ++ b ∷ [])
    ≡⟨ drop-append 1 kept (b ∷ []) (omega (arith, twenty)) ⟩ drop 1 kept ++ b ∷ []
    ≡⟨ ap (λ (t : List Bool). t ++ b ∷ []) (drop-drop 1 k h) ⟩ drop (k + 1) h ++ b ∷ []
    ≡⟨ sym (drop-append (k + 1) h (b ∷ []) (omega arith)) ⟩ drop (k + 1) (h ++ b ∷ [])
    ≡⟨ sym (last_twenty-drop (h ++ b ∷ []) ∙ ap (λ (n : ℕ). drop n (h ++ b ∷ [])) all) ⟩
      last_twenty (h ++ b ∷ []) ∎

-- What is cut off once does not matter when the next result comes.
pub last_twenty-append :
    (h : List Bool) (b : Bool) → last_twenty (last_twenty h ++ b ∷ []) ≡ last_twenty (h ++ b ∷ [])
last_twenty-append h b = elim (Bool-cases (ltb 20 (length h))) [
  | inl long ↦ last_twenty-append_long h b (ltb→lt _ _ long)
  | inr short ↦ rw (last_twenty_short h short)
]

pub fails-le : (h : List Bool) → fails h ≤ length h
unfolding fails
fails-le [] = omega arith
fails-le (b ∷ h) = ground (arith, fails-le h)

zero_of_empty : (f n : ℕ) → n ≡ 0 → f ≤ n → 100 * f / n ≡ 0
zero_of_empty f n e h = omega arith

pub percent-le : (f n : ℕ) → f ≤ n → 100 * f / n ≤ 100
percent-le f n h = grind arith

-- Up to twenty results, the float64 signal is the exact percentage of failures.
pub probe_signal-exact : (h : List Bool) → length h ≤ 20 → probe_signal h ≡ 100 * fails h / length h
unfolding probe_signal
probe_signal-exact h small = elim (Bool-cases (length h == 0)) [
  | inl nothing ↦
      rw nothing (sym (zero_of_empty (fails h) (length h) (ground (arith, nothing)) (fails-le h)))
  | inr some_left ↦
      rw some_left
        (percent-exact (fails h) (length h) (ground (arith, some_left)) small (fails-le h))
]

pub probe_signal-le : (h : List Bool) → length h ≤ 20 → probe_signal h ≤ 100
probe_signal-le h small =
    rw (probe_signal-exact h small) (percent-le (fails h) (length h) (fails-le h))
