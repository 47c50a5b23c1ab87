-- ===== src/Temperature/Store/Score.antt =====
-- The score and its bucket: bounds, and what raises them.
use Prim.Native.Nat.{min}
use eu_trust_sdk.Base.{◌+◌, ◌*◌, ◌/◌, ℕ, ◌≤◌, arith, ◌≡◌}
use eu_trust_sdk.Temperature.Store.{min100, weighted, score_to_bucket}

-- The sum in terms of the least of two numbers.
pub weighted_lem :
    (ip_reqs subnet_reqs burns probes reputation : ℕ)
    → weighted ip_reqs subnet_reqs burns probes reputation
      ≡ (min 100 (5 * ip_reqs) * 30
          + min 100 (2 * subnet_reqs) * 20
          + min 100 (burns / 10) * 20
          + probes * 10
          + reputation * 20)
        / 100
unfolding weighted min100
weighted_lem ip_reqs subnet_reqs burns probes reputation = ground arith

-- With each signal at most 100 the weighted sum is at most 100: the last cap never bites.
pub weighted-le :
    (ip_reqs subnet_reqs burns probes reputation : ℕ)
    → probes ≤ 100
    → reputation ≤ 100
    → weighted ip_reqs subnet_reqs burns probes reputation ≤ 100
unfolding weighted
weighted-le ip_reqs subnet_reqs burns probes reputation hp hr = ground arith

-- No signal that grows lowers the sum.
pub weighted_mono :
    (i i' s s' b b' p p' r r' : ℕ)
    → i ≤ i'
    → s ≤ s'
    → b ≤ b'
    → p ≤ p'
    → r ≤ r'
    → weighted i s b p r ≤ weighted i' s' b' p' r'
unfolding weighted
weighted_mono i i' s s' b b' p p' r r' hi hs hb hp hr = ground arith

pub score_to_bucket_mono : (a b : ℕ) → a ≤ b → score_to_bucket a ≤ score_to_bucket b
unfolding score_to_bucket
score_to_bucket_mono a b h = ground arith

pub min100_of_le : (v : ℕ) → v ≤ 100 → min100 v ≡ v
unfolding min100
min100_of_le v h = ground arith
