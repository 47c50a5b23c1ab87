-- ===== src/Base/Table.antt =====
-- Facts about small numbers, by evaluation at every one.
use Prim.Native.Nat.{ℕ, zero, suc, ◌<◌}
use mathlib.Core.Path.{◌≡◌}
use mathlib.Core.Bool.{Bool, true, ◌&&◌}
use native.Mathlib.Omega.{arith}

-- Every value below the bound passes the test.
unfoldable pub all_below : ℕ → (ℕ → Bool) → Bool
all_below zero test = true
all_below (suc top) test = all_below top test && test top

pub all_below_sound :
    (bound : ℕ) (test : ℕ → Bool) (v : ℕ) → all_below bound test ≡ true → v < bound → test v ≡ true
unfolding all_below
all_below_sound zero test v passed small = absurd (omega arith)
all_below_sound (suc top) test v passed small = ground (arith, all_below_sound top test v)
