-- ===== src/Base/Assoc.antt =====
-- Go maps whose number of entries is observed: their entries, with distinct keys.
use mathlib.Core.Option.{Option, none, some}
use mathlib.Core.List.{List, [], ◌∷◌}
use eu_trust_sdk.Base.Tests.{Text, text_eq, if◌then◌else◌}

abbrev pub Assoc {ℓ} : Type ℓ → Type ℓ
Assoc V = List (Text × V)

-- `m[k]`
unfoldable pub lookup {ℓ} : {V : Type ℓ} → Text → Assoc V → Option V
lookup k [] = none
lookup k (kv ∷ m) = let rest = lookup k m in if text_eq k kv.0 then some kv.1 else rest
