-- ===== src/Challenge/Probes/Selection.antt =====
-- What `selectProbes` draws: as many probes as asked for, all in the pool, none twice.
use Prim.Native.Nat.{min}
use eu_trust_sdk.Base.{
  ℕ, zero, suc, ◌+◌, ◌≤◌, ◌<◌, ◌≡◌, ◌≢◌, ap, Bool, true, false, ◌⊎◌, inl, inr, List, [], ◌∷◌, ◌++◌,
  arith, length, length-append, All, All-append, All-imp, IsDistinct, IsDistinct-append_last, ltb,
  ◌==◌, ◌||◌, if◌then◌else◌, Bool-cases, ltb→lt, Text,
}
use eu_trust_sdk.Challenge.Probes.{pick_bytes, pick_rest, nothing_picked, capped, select_probes}
use eu_trust_sdk.Challenge.Probes.Marks.{tally, tally_next, ne_of_marks}
use eu_trust_sdk.Challenge.Probes.Drawing.{IsPicked, pick_bytes-IsPicked, nothing_picked-IsPicked}

-- The state of the second loop when it comes to `idx`; `selected` is what the first loop left.
record IsFilling (pool_size count : ℕ) (selected : ℕ → Bool) (idx : ℕ) (indices : List ℕ)
    : Type 0 where
  pub in_pool : All (λ j. j < pool_size) indices
  pub seen : All (λ j. (selected j ≡ true) ⊎ (j < idx)) indices
  pub distinct : IsDistinct indices
  pub counted : length indices + tally selected idx ≡ tally selected pool_size + idx
  pub bounded : length indices ≤ count

ne_of_seen :
    (selected : ℕ → Bool) (idx j : ℕ)
    → selected idx ≡ false
    → (selected j ≡ true) ⊎ (j < idx)
    → j ≢ idx
ne_of_seen selected idx j new (inl old) = ne_of_marks selected idx j new old
ne_of_seen selected idx j new (inr below) = omega arith

seen_later :
    (selected : ℕ → Bool) (idx j : ℕ)
    → (selected j ≡ true) ⊎ (j < idx)
    → (selected j ≡ true) ⊎ (j < idx + 1)
seen_later selected idx j (inl old) = inl old
seen_later selected idx j (inr below) = inr (omega arith)

module _ (pool_size count : ℕ) (selected : ℕ → Bool) where
  fill_step :
      (idx : ℕ) (indices : List ℕ)
      → idx < pool_size
      → length indices < count
      → IsFilling pool_size count selected idx indices
      → IsFilling pool_size count selected
          (idx + 1)
          (if selected idx then indices else indices ++ idx ∷ [])
  unfolding tally
  fill_step idx indices inside room h = elim (Bool-cases (selected idx)) [
    | inl old ↦ rw old (record {
      in_pool = h.in_pool;
      seen = All-imp _ _ (seen_later selected idx) indices h.seen;
      distinct = h.distinct;
      counted = ground (arith, tally_next selected idx, h.counted, old);
      bounded = h.bounded;
    })
    | inr new ↦ rw new (record {
      in_pool = All-append _ indices _ h.in_pool (inside, tt);
      seen =
          All-append _ indices _ (All-imp _ _ (seen_later selected idx) indices h.seen)
            (inr (omega arith), tt);
      distinct =
          IsDistinct-append_last indices idx h.distinct
            (All-imp _ _ (λ j. ne_of_seen selected idx j new) indices h.seen);
      counted =
          ground (arith, length-append indices (idx ∷ []), tally_next selected idx, h.counted, new);
      bounded = omega (arith, length-append indices (idx ∷ []));
    })
  ]

  -- The loop stops with `count` indices, or has gone through the pool and then holds all of it.
  pick_rest_lem :
      (rounds idx : ℕ) (indices : List ℕ)
      → rounds + idx ≡ pool_size
      → count ≤ pool_size
      → IsFilling pool_size count selected idx indices
      → All (λ j. j < pool_size) (pick_rest selected count rounds idx indices)
        × IsDistinct (pick_rest selected count rounds idx indices)
        × (length (pick_rest selected count rounds idx indices) ≡ count)
  unfolding pick_rest
  pick_rest_lem zero idx indices e fits h =
      let e' : idx ≡ pool_size = omega arith in
      (h.in_pool, h.distinct, omega (arith, h.counted, h.bounded, ap (tally selected) e'))
  pick_rest_lem (suc rounds) idx indices e fits h = elim (Bool-cases (ltb (length indices) count)) [
    | inl room ↦ rw room (
        pick_rest_lem rounds (idx + 1) _ (omega arith) fits
          (fill_step idx indices (omega arith) (ltb→lt _ _ room) h))
    | inr full ↦ rw full (h.in_pool, h.distinct, ground (arith, h.bounded, full))
  ]

-- Both loops together, once the count is capped.
draw_lem :
    (seed : Text) (pool_size count : ℕ)
    → 0 < pool_size
    → count ≤ pool_size
    → let s = pick_bytes pool_size count nothing_picked seed in
      let drawn = pick_rest s.selected count pool_size 0 s.indices in
      All (λ j. j < pool_size) drawn × IsDistinct drawn × (length drawn ≡ count)
unfolding tally
draw_lem seed pool_size count pos fits =
    let s = pick_bytes pool_size count nothing_picked seed in
    let h : IsPicked pool_size count s =
      pick_bytes-IsPicked pool_size count nothing_picked seed pos
        (nothing_picked-IsPicked pool_size count) in
    pick_rest_lem pool_size count s.selected pool_size 0 s.indices (omega arith) fits (record {
      in_pool = h.in_pool;
      seen = All-imp _ _ (λ j e. inl e) s.indices h.marked;
      distinct = h.distinct;
      counted = omega (arith, h.counted);
      bounded = h.bounded;
    })

-- Given a seed of any length, the drawn probes lie in the pool, none stands twice, and there are
-- as many as asked for, or as the pool holds if that is less.
pub select_probes_lem :
    (seed : Text) (pool_size count : ℕ)
    → All (λ j. j < pool_size) (select_probes seed pool_size count)
      × IsDistinct (select_probes seed pool_size count)
      × (length (select_probes seed pool_size count) ≡ min pool_size count)
unfolding select_probes
select_probes_lem seed pool_size count = elim (Bool-cases (pool_size == 0 || count == 0)) [
  | inl nothing ↦ rw nothing (tt, tt, ground (arith, nothing))
  | inr some_left ↦
      let drawn =
        draw_lem seed pool_size (capped pool_size count) (ground (arith, some_left))
          (ground arith) in
      rw some_left (drawn.0, drawn.1, ground (arith, drawn.2))
]
