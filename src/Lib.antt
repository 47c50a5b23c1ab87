-- ===== src/Lib.antt =====
-- A model of the server of the Sovereign Trust SDK: a client asks for a challenge, solves its
-- puzzles, gets a partially blind RSA signature over a nonce of its own and some public metadata,
-- and a relying party has the token of the three checked once.
--
-- cmd/server/main.go is `Server` with the handlers `Server.Issue` (handleChallenge, handleVerify) and
-- `Server.Redeem` (handleSiteverify). A handler takes the state and returns the reply and the next
-- state; `Server.Calls` runs calls one after the other, with rounds of cleanupLoop among them, and
-- `Server.Overlap` interleaves them at their accesses to the shared state, and `Server.Session` follows
-- one client through all three. `Server.Routes` has main's routes and corsMiddleware, `Server.DevKey`
-- loadDevKey. JSON, forms and headers are not modelled
-- beyond the fields that are read, nor are the texts of the errors, the flags, the log and the
-- listening. The readings of the clock of one call are separate arguments.
--
-- The handlers use these parts:
-- - internal/challenge: `Challenge.Params` and `Challenge.Probes` (params.go), `Challenge.HashCash`,
--   `Challenge.Argon2`, and `Challenge.Composite` (composite.go with the payloads of
--   pkg/api/types.go). A Go panic is `none` where it can happen.
-- - internal/environment/probes.go: `Environment`, over all values of float64.
-- - internal/temperature: `Temperature.Store` (store.go), `Temperature.Scorer` (scorer.go),
--   `Temperature.Reputation` (reputation.go), over `Temperature.Network`, which reads IPv4 and IPv6
--   addresses and prefixes as Go's net package does. The store takes the reputation of an address as
--   a function, and main gives it `Temperature.Reputation.reputation_of`.
-- - internal/rsapbssa/rsapbssa.go: `Rsa.Generate` (GenerateKey), `Rsa.Keys`, `Rsa.Pss`,
--   `Rsa.Protocol`, over the numbers of `Rsa.Arith`, whose child modules prove what RSA needs of
--   primes. No theorem says that an attacker cannot forge a signature.
-- - pkg/api/types.go: `Api.Metadata`, the seven bytes of metadata.
--
-- `Crypto` has the hashes, HMAC, HKDF and Argon2 as functions, and in `IsCrypto` the lengths and
-- byte ranges of their results; `Rsa.Generate.Primes` has rand.Prime and ProbablyPrime, and
-- `IsPrimes` what these document. Parsing a float is a parameter too. `Base` has byte strings as
-- lists of numbers, maps, and the hex, base64 and big-endian forms of Go's library; `Double` rounds
-- float64 as multiples of 2 ^ -1074.
--
-- Loops are structural, or run on fuel that the data bounds: `scan_mask` has nine rounds for a mask
-- of eight bits, `groups` eight for the sixteen bytes of an IPv6 address, `mgf1_from` one round for
-- each byte to fill though a round fills 48, `bit_len_from` as many rounds as the number's value,
-- `inverse_from` one for each number below the modulus, and `Double.bit_length` halves 4096 places
-- in twelve rounds. The loops of key generation end by luck alone: their fuel is a parameter, and a
-- theorem says how much is enough. An n-bit integer keeps its wrap-around as a remainder.
--
-- `Tests` runs the code at concrete inputs and applies each theorem there.
pub mod Base
pub mod Api
pub mod Challenge
pub mod Double
pub mod Environment
pub mod Temperature
pub mod Crypto
pub mod Rsa
pub mod Server
mod Tests
