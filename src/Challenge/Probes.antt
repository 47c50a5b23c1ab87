-- ===== src/Challenge/Probes.antt =====
-- `selectProbes` of internal/challenge/params.go: which probes of the pool a challenge draws.
mod Marks
mod Drawing
pub mod Selection
use eu_trust_sdk.Base.{
  ℕ, zero, suc, ◌+◌, ◌%◌, Bool, true, false, ◌||◌, List, [], ◌∷◌, ◌++◌, length, ltb, ◌==◌,
  if◌then◌else◌, Text,
}

-- The map `selected` and the slice `indices`.
pub record Picked : Type 0 where
  pub selected : ℕ → Bool
  pub indices : List ℕ

-- `selected[idx] = true`
abbrev pub mark : (ℕ → Bool) → ℕ → ℕ → Bool
mark selected idx j = if idx == j then true else selected j

-- The body of the first loop, for the byte `seed[i]`.
unfoldable pub pick : ℕ → Picked → ℕ → Picked
pick pool_size s b =
    let idx = b % pool_size in
    if s.selected idx
    then s
    else record { selected = mark s.selected idx; indices = s.indices ++ idx ∷ [] }

-- The first loop, over the bytes that are left.
unfoldable pub pick_bytes : ℕ → ℕ → Picked → Text → Picked
pick_bytes pool_size count s [] = s
pick_bytes pool_size count s (b ∷ seed) =
    let rest = pick_bytes pool_size count (pick pool_size s b) seed in
    if ltb (length s.indices) count then rest else s

-- The second loop, with the rounds that are left before `idx` reaches the pool's size. It writes
-- `indices` alone.
unfoldable pub pick_rest : (ℕ → Bool) → ℕ → ℕ → ℕ → List ℕ → List ℕ
pick_rest selected count zero idx indices = indices
pick_rest selected count (suc rounds) idx indices =
    let indices' = if selected idx then indices else indices ++ idx ∷ [] in
    let rest = pick_rest selected count rounds (idx + 1) indices' in
    if ltb (length indices) count then rest else indices

abbrev pub nothing_picked : Picked
nothing_picked = record { selected = λ j. false; indices = [] }

-- `if count > poolSize { count = poolSize }`
abbrev pub capped : ℕ → ℕ → ℕ
capped pool_size count = if ltb pool_size count then pool_size else count

unfoldable pub select_probes : Text → ℕ → ℕ → List ℕ
unfolding pick_bytes pick_rest
select_probes seed pool_size count =
    if pool_size == 0 || count == 0
    then []
    else let s = pick_bytes pool_size (capped pool_size count) nothing_picked seed in
      pick_rest s.selected (capped pool_size count) pool_size 0 s.indices
