-- ===== src/Challenge/Argon2.antt =====
-- internal/challenge/argon2.go: the memory-hard puzzle.
pub mod Accepts
use Prim.Native.Nat.{bit_or, bit_xor}
use eu_trust_sdk.Base.{
  ℕ, not, Option, none, some, [], ◌∷◌, codes, length, ◌==◌, if◌then◌else◌, Text,
}
use eu_trust_sdk.Base.Hex
use eu_trust_sdk.Crypto.{Crypto}
use eu_trust_sdk.Challenge.Error.{Result, ok, err, argon2_failed, invalid_nonce, read_error}

pub record Argon2Challenge : Type 0 where
  pub nonce : Text
  pub memory : ℕ
  pub iterations : ℕ
  pub parallelism : ℕ
  pub key_length : ℕ

-- The 16 bytes read from crypto/rand; `none` is a read error.
unfoldable pub new_argon2_challenge : Option Text → ℕ → ℕ → Result Argon2Challenge
new_argon2_challenge none memory_kib iterations = err read_error
new_argon2_challenge (some nonce) memory_kib iterations = ok (record {
  nonce = Hex.encode nonce;
  memory = memory_kib;
  iterations = iterations;
  parallelism = 1;
  key_length = 32;
})

-- `diff |= expected[i] ^ got[i]`, over the bytes of `expected`; `got` is as long.
unfoldable pub difference : ℕ → Text → Text → ℕ
difference diff [] got = diff
difference diff (e ∷ expected) [] = diff
difference diff (e ∷ expected) (g ∷ got) = difference (bit_or diff (bit_xor e g)) expected got

module _ (c : Crypto) where
  -- For a puzzle with a pass and a lane at least, as the ranges give them: `IDKey` panics without.
  unfoldable pub verify_argon2 : Argon2Challenge → Text → Result (Unit {0})
  verify_argon2 ch result = elim (Hex.decode ch.nonce) [
    | none ↦ err invalid_nonce
    | some nonce_bytes ↦
        let expected =
          c.argon2_id (codes "sovereign-trust-challenge") nonce_bytes ch.iterations ch.memory
            ch.parallelism ch.key_length in
        elim (Hex.decode result) [
          | none ↦ err argon2_failed
          | some got ↦
              if not (length got == ch.key_length)
              then err argon2_failed
              else if not (difference 0 expected got == 0)
              then err argon2_failed
              else ok tt
        ]
  ]
