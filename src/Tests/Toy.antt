-- ===== src/Tests/Toy.antt =====
-- Functions of the right form in the place of the cryptographic ones.
use eu_trust_sdk.Base.{
  ℕ, zero, suc, ◌≡◌, refl, subst, arith, some, length, replicate, length-replicate, Text,
}
use eu_trust_sdk.Base.Bytes.{IsBytes}
use eu_trust_sdk.Crypto.{Crypto, IsCrypto}

abbrev pub toy : Crypto
toy = record {
  sha256 = λ m. replicate 32 0;
  sha384 = λ m. replicate 48 0;
  hmac_sha256 = λ k m. replicate 32 0;
  hkdf_sha384 = λ secret salt info n. some (replicate n 0);
  argon2_id = λ password salt passes memory threads n. replicate n 0;
}

pub zeros-IsBytes : (n : ℕ) → IsBytes (replicate n 0)
zeros-IsBytes zero = tt
zeros-IsBytes (suc n) = (omega arith, zeros-IsBytes n)

some-injective : {a b : Text} → some a ≡ some b → a ≡ b
some-injective e = cc

pub toy-IsCrypto : IsCrypto toy
toy-IsCrypto = record {
  sha256_length = λ m. refl;
  sha256_bytes = λ m. zeros-IsBytes 32;
  sha384_length = λ m. refl;
  sha384_bytes = λ m. zeros-IsBytes 48;
  hmac_length = λ k m. refl;
  hkdf_length = λ secret salt info n out e.
      subst (λ t. length t ≡ n) (some-injective e) (length-replicate n 0);
  hkdf_bytes = λ secret salt info n out e. subst IsBytes (some-injective e) (zeros-IsBytes n);
  argon2_length = λ password salt passes memory threads n. length-replicate n 0;
}
