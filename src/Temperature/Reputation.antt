-- ===== src/Temperature/Reputation.antt =====
-- internal/temperature/reputation.go: what kind of network an address is from.
mod Aws
mod Azure
mod Prefixes
pub mod Ranges
use eu_trust_sdk.Base.{
  ℕ, Bool, true, false, ◌||◌, Option, none, some, List, [], ◌∷◌, ◌++◌, if◌then◌else◌, Text,
}
use eu_trust_sdk.Temperature.Network.{Ip, Net, contains}
use eu_trust_sdk.Temperature.Network.Parse.{parse_ip, parse_cidr}
use Prefixes.{gcp, digital_ocean, tor_cidrs}
use Aws.{aws}
use Azure.{azure}

-- An entry that is no prefix is left out.
unfoldable pub parse_cidrs : List Text → List Net
unfolding parse_cidr
parse_cidrs [] = []
parse_cidrs (s ∷ list) =
    let rest = parse_cidrs list in elim (parse_cidr s) [ none ↦ rest | some n ↦ n ∷ rest ]

-- The two fields of `NewReputation`.
unfoldable pub cloud : List Net
unfolding parse_cidrs aws gcp azure digital_ocean
cloud = parse_cidrs (aws ++ (gcp ++ (azure ++ digital_ocean)))

unfoldable pub tor : List Net
unfolding parse_cidrs tor_cidrs
tor = parse_cidrs tor_cidrs

-- The loop over a list of prefixes.
unfoldable pub in_any : List Net → Ip → Bool
in_any [] ip = false
in_any (n ∷ nets) ip = let rest = in_any nets ip in if contains n ip then true else rest

-- `Score` of `Reputation`.
unfoldable pub reputation_of : Text → ℕ
unfolding parse_ip in_any tor cloud
reputation_of ip = elim (parse_ip ip) [
  | none ↦ 0
  | some parsed ↦ if in_any tor parsed then 100 else if in_any cloud parsed then 80 else 0
]
