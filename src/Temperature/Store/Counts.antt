-- ===== src/Temperature/Store/Counts.antt =====
-- How appending, cleaning and counting of one key's request times go together.
use eu_trust_sdk.Base.{
  ℕ, ◌+◌, ◌≤◌, ◌≡◌, refl, ap, ◌∙◌, ◌&&◌, Bool, true, false, List, [], ◌∷◌, ◌++◌, arith, ltb,
  text_eq, text_eq_iff, Option-cases, inl, inr, if◌then◌else◌, Text,
}
use eu_trust_sdk.Base.Map
use eu_trust_sdk.Base.Map.{Map}
use eu_trust_sdk.Temperature.Store.{append_to, count_after, keep_after, keep_entry, clean_map}

-- What a reader finds after an append: one more at that key, and the same at any other.
pub get-append_to :
    {A : Type 0} (m : Map (List A)) (k : Text) (x : A) (j : Text)
    → Map.get_or (append_to m k x) j []
      ≡ (if text_eq k j then Map.get_or m j [] ++ x ∷ [] else Map.get_or m j [])
get-append_to m k x j =
    Map.get_or-insert m k (Map.get_or m k [] ++ x ∷ []) j [] ∙ same_key (text_eq k j) refl
  where
    same_key :
        (b : Bool)
        → text_eq k j ≡ b
        → (if b then Map.get_or m k [] ++ x ∷ [] else Map.get_or m j [])
          ≡ (if b then Map.get_or m j [] ++ x ∷ [] else Map.get_or m j [])
    same_key true e = let e' : k ≡ j = (text_eq_iff k j).0 e in rw e'
    same_key false e = refl

pub count_after-append :
    (times : List ℕ) (t cutoff : ℕ)
    → count_after (times ++ t ∷ []) cutoff
      ≡ count_after times cutoff + (if ltb cutoff t then 1 else 0)
unfolding count_after
count_after-append [] t cutoff = ground arith
count_after-append (u ∷ times) t cutoff = omega (arith, count_after-append times t cutoff)

-- Cleaning at an earlier cutoff removes nothing that a later cutoff counts.
count_after-keep_after :
    (times : List ℕ) (early late : ℕ)
    → early ≤ late
    → count_after (keep_after early times) late ≡ count_after times late
unfolding count_after keep_after
count_after-keep_after [] early late h = refl
count_after-keep_after (t ∷ times) early late h =
    ground (arith, count_after-keep_after times early late)

get-keep_entry : (o : List ℕ) → Map.get_or (λ k. keep_entry o) [] [] ≡ o
get-keep_entry [] = refl
get-keep_entry (t ∷ o) = refl

get-clean_map :
    (m : Map (List ℕ)) (k : Text) (cutoff : ℕ)
    → Map.get_or (clean_map cutoff m) k [] ≡ keep_after cutoff (Map.get_or m k [])
unfolding keep_after
get-clean_map m k cutoff = elim (Option-cases (m k)) [
  | inl missing ↦ rw (missing, Map.get_or)
  | inr (times, found) ↦ rw (found, Map.get_or) (get-keep_entry (keep_after cutoff times))
]

pub count_after-clean_map :
    (m : Map (List ℕ)) (k : Text) (early late : ℕ)
    → early ≤ late
    → count_after (Map.get_or (clean_map early m) k []) late ≡ count_after (Map.get_or m k []) late
count_after-clean_map m k early late h =
    rw (get-clean_map m k early) (count_after-keep_after (Map.get_or m k []) early late h)

-- One more request is counted at its own key, if it lies after the cutoff.
pub count_after-append_to :
    (m : Map (List ℕ)) (key : Text) (t : ℕ) (k : Text) (cutoff : ℕ)
    → count_after (Map.get_or (append_to m key t) k []) cutoff
      ≡ count_after (Map.get_or m k []) cutoff + (if text_eq key k && ltb cutoff t then 1 else 0)
count_after-append_to m key t k cutoff =
    ap (λ (times : List ℕ). count_after times cutoff) (get-append_to m key t k)
    ∙ at_key (text_eq key k)
  where
    at_key :
        (b : Bool)
        → count_after (if b then Map.get_or m k [] ++ t ∷ [] else Map.get_or m k []) cutoff
          ≡ count_after (Map.get_or m k []) cutoff + (if b && ltb cutoff t then 1 else 0)
    at_key true = count_after-append (Map.get_or m k []) t cutoff
    at_key false = omega arith
