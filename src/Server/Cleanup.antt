-- ===== src/Server/Cleanup.antt =====
-- What a round of `cleanupLoop` does to one spent nonce.
use eu_trust_sdk.Base.{ℕ, ◌≤◌, ◌<◌, ◌≡◌, arith, none, some, false, true, ltb, Text}
use eu_trust_sdk.Server.{Server, TokenEntry, clean}

pub clean-expired :
    (now : ℕ) (s : Server) (k : Text) (entry : TokenEntry)
    → s.tokens k ≡ some entry
    → entry.expiry < now
    → (clean now s).tokens k ≡ none
unfolding clean
clean-expired now s k entry e h =
    let late : ltb entry.expiry now ≡ true = ground (arith, h) in rw (e, late, clean)

pub clean-kept :
    (now : ℕ) (s : Server) (k : Text) (entry : TokenEntry)
    → s.tokens k ≡ some entry
    → now ≤ entry.expiry
    → (clean now s).tokens k ≡ some entry
unfolding clean
clean-kept now s k entry e h =
    let early : ltb entry.expiry now ≡ false = ground (arith, h) in rw (e, early, clean)
