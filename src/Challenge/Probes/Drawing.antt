-- ===== src/Challenge/Probes/Drawing.antt =====
-- The first loop of `selectProbes`: what holds of `selected` and `indices` after any bytes.
use eu_trust_sdk.Base.{
  ℕ, ◌%◌, ◌≤◌, ◌<◌, ◌≡◌, true, inl, inr, [], ◌∷◌, arith, length, length-append, All, All-append,
  All-imp, IsDistinct, IsDistinct-append_last, ltb, Bool-cases, ltb→lt, Text,
}
use eu_trust_sdk.Challenge.Probes.{Picked, pick, pick_bytes, nothing_picked}
use eu_trust_sdk.Challenge.Probes.Marks.{
  tally, tally-mark, tally-none, mark_keeps, mark_self, ne_of_marks,
}

-- The state of the first loop.
pub record IsPicked (pool_size count : ℕ) (s : Picked) : Type 0 where
  pub in_pool : All (λ j. j < pool_size) s.indices
  pub marked : All (λ j. s.selected j ≡ true) s.indices
  pub distinct : IsDistinct s.indices
  pub counted : length s.indices ≡ tally s.selected pool_size
  pub bounded : length s.indices ≤ count

module _ (pool_size count : ℕ) where
  pick-IsPicked :
      (s : Picked) (b : ℕ)
      → 0 < pool_size
      → length s.indices < count
      → IsPicked pool_size count s
      → IsPicked pool_size count (pick pool_size s b)
  unfolding pick
  pick-IsPicked s b pos room h =
      let i = b % pool_size in
      elim (Bool-cases (s.selected i)) [
        | inl old ↦ rw old h
        | inr new ↦ rw new (record {
          in_pool = All-append _ s.indices _ h.in_pool (omega arith, tt);
          marked =
              All-append _ s.indices _ (All-imp _ _ (mark_keeps s.selected i) s.indices h.marked)
                (mark_self s.selected i, tt);
          distinct =
              IsDistinct-append_last s.indices i h.distinct
                (All-imp _ _ (λ j. ne_of_marks s.selected i j new) s.indices h.marked);
          counted = omega (
            arith,
            length-append s.indices (i ∷ []),
            tally-mark s.selected i pool_size new (omega arith),
            h.counted,
          );
          bounded = omega (arith, length-append s.indices (i ∷ []));
        })
      ]

  pub pick_bytes-IsPicked :
      (s : Picked) (seed : Text)
      → 0 < pool_size
      → IsPicked pool_size count s
      → IsPicked pool_size count (pick_bytes pool_size count s seed)
  unfolding pick_bytes
  pick_bytes-IsPicked s [] pos h = h
  pick_bytes-IsPicked s (b ∷ seed) pos h = elim (Bool-cases (ltb (length s.indices) count)) [
    | inl room ↦ rw room (
        pick_bytes-IsPicked (pick pool_size s b) seed pos
          (pick-IsPicked s b pos (ltb→lt _ _ room) h))
    | inr full ↦ rw full h
  ]

  pub nothing_picked-IsPicked : IsPicked pool_size count nothing_picked
  nothing_picked-IsPicked = record {
    in_pool = tt;
    marked = tt;
    distinct = tt;
    counted = rw tally-none;
    bounded = omega arith;
  }
