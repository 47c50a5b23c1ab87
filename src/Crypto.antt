-- ===== src/Crypto.antt =====
-- The cryptographic functions that the program calls, as parameters: the hashes and the HMAC of Go's
-- crypto packages, used as black boxes, and HKDF and Argon2 of golang.org/x/crypto.
use eu_trust_sdk.Base.{ℕ, ◌≡◌, Option, some, length, Text}
use eu_trust_sdk.Base.Bytes.{IsBytes}

pub record Crypto : Type 0 where
  pub sha256 : Text → Text
  pub sha384 : Text → Text
  -- The key and the data.
  pub hmac_sha256 : Text → Text → Text
  -- The secret, the salt, the info and the number of bytes to read; `none` is a read error.
  pub hkdf_sha384 : Text → Text → Text → ℕ → Option Text
  -- The password, the salt, the passes, the KiB of memory, the threads and the key's length.
  pub argon2_id : Text → Text → ℕ → ℕ → ℕ → ℕ → Text

-- What the functions document about the form of their results.
pub record IsCrypto (c : Crypto) : Type 0 where
  pub sha256_length : (m : Text) → length (c.sha256 m) ≡ 32
  pub sha256_bytes : (m : Text) → IsBytes (c.sha256 m)
  pub sha384_length : (m : Text) → length (c.sha384 m) ≡ 48
  pub sha384_bytes : (m : Text) → IsBytes (c.sha384 m)
  pub hmac_length : (k m : Text) → length (c.hmac_sha256 k m) ≡ 32
  pub hkdf_length :
      (secret salt info : Text) (n : ℕ) (out : Text)
      → c.hkdf_sha384 secret salt info n ≡ some out
      → length out ≡ n
  pub hkdf_bytes :
      (secret salt info : Text) (n : ℕ) (out : Text)
      → c.hkdf_sha384 secret salt info n ≡ some out
      → IsBytes out
  pub argon2_length :
      (password salt : Text) (passes memory threads n : ℕ)
      → length (c.argon2_id password salt passes memory threads n) ≡ n
