-- ===== src/Temperature/Network.antt =====
-- IP addresses and networks as the store and the reputation list see them, from Go's net package.
pub mod Dotted
pub mod Parse
use eu_trust_sdk.Base.{
  ℕ, ◌+◌, ◌*◌, ◌-◌, ◌/◌, ◌^◌, Bool, false, Option, none, some, ◌++◌, codes, ◌==◌, Text,
}
use eu_trust_sdk.Base.Bytes.{fill_bytes}
use eu_trust_sdk.Base.Hex

-- `To4` finds the 32 bits of the address, or it has only its 128.
pub data Ip : Type 0 where
  v4 : ℕ → Ip
  v6 : ℕ → Ip

-- A `net.IPNet` by its address and the length of its prefix, and its `Contains`.
pub data Net : Type 0 where
  net4 : ℕ → ℕ → Net
  net6 : ℕ → ℕ → Net

unfoldable pub contains : Net → Ip → Bool
contains (net4 b prefix) (v4 a) = a / 2 ^ (32 - prefix) == b / 2 ^ (32 - prefix)
contains (net6 b prefix) (v6 a) = a / 2 ^ (128 - prefix) == b / 2 ^ (128 - prefix)
contains _ _ = false
