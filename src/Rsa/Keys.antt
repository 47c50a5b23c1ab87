-- ===== src/Rsa/Keys.antt =====
-- Keys of internal/rsapbssa/rsapbssa.go: `KeyPair`, and the public and private exponents derived
-- from the metadata. Numbers are those of math/big, never negative.
pub mod Derived
use Prim.Native.Nat.{bit_and, bit_or}
use eu_trust_sdk.Base.{
  ℕ, zero, suc, ◌+◌, ◌-◌, ◌*◌, ◌/◌, none, some, [], ◌∷◌, ◌++◌, codes, take, ◌==◌, if◌then◌else◌,
  Text,
}
use eu_trust_sdk.Base.Bytes.{to_int, fill_bytes}
use eu_trust_sdk.Crypto.{Crypto}
use eu_trust_sdk.Rsa.Arith.{bit_len, mod_inverse}
use eu_trust_sdk.Rsa.Error.{Result, ok, err, not_coprime, read_error, panic, ◌>>=◌}

pub record KeyPair : Type 0 where
  pub n : ℕ
  pub e : ℕ
  pub d : ℕ
  pub p : ℕ
  pub q : ℕ
  pub phi : ℕ

-- `rsa.PublicKey` of crypto/rsa.
pub record PublicKey : Type 0 where
  pub n : ℕ
  pub e : ℕ

pub record DerivedPublicKey : Type 0 where
  pub n : ℕ
  pub e : ℕ

-- `KeyPairFromComponents`, for an `e` that `Int64` can return: for any other its result is undefined.
unfoldable pub key_pair_from_components : ℕ → ℕ → ℕ → ℕ → ℕ → KeyPair
key_pair_from_components n e d p q = record {
  n = n;
  e = e;
  d = d;
  p = p;
  q = q;
  phi = (p - 1) * (q - 1);
}

-- `PublicKey`
abbrev pub public_key : KeyPair → PublicKey
public_key kp = record { n = kp.n; e = kp.e }

-- `(n.BitLen() + 7) / 8`
unfoldable pub modulus_len : ℕ → ℕ
modulus_len n = (bit_len n + 7) / 8

-- `xs[i] = f(xs[i])`, where `i` is in range.
abbrev pub update_at : ℕ → (ℕ → ℕ) → Text → Text
update_at i f [] = []
update_at zero f (x ∷ xs) = f x ∷ xs
update_at (suc i) f (x ∷ xs) = x ∷ update_at i f xs

-- The two top bits cleared, the lowest bit of the last byte set, and the first `lambda_len` bytes
-- as a number.
unfoldable pub exponent_of : ℕ → Text → ℕ
exponent_of lambda_len expanded =
    let cleared = update_at 0 (λ b. bit_and b 0x3f) expanded in
    let odd = update_at (lambda_len - 1) (λ b. bit_or b 0x01) cleared in
    to_int (take lambda_len odd)

module _ (c : Crypto) where
  -- A modulus of one byte has no last byte to set: the index is -1.
  unfoldable pub derive_public_key : PublicKey → Text → Result DerivedPublicKey
  derive_public_key pk info =
      let lambda_len = modulus_len pk.n / 2 in
      let ikm = codes "key" ++ (info ++ 0x00 ∷ []) in
      let salt = fill_bytes (modulus_len pk.n) pk.n in
      elim (c.hkdf_sha384 ikm salt (codes "PBRSA") (lambda_len + 16)) [
        | none ↦ err read_error
        | some expanded ↦
            if lambda_len == 0
            then err panic
            else ok (record { n = pk.n; e = exponent_of lambda_len expanded })
      ]

  -- The pair of e' and d'.
  unfoldable pub derive_key_pair : KeyPair → Text → Result (ℕ × ℕ)
  unfolding derive_public_key
  derive_key_pair kp info = do
    derived ← derive_public_key (public_key kp) info
    elim (mod_inverse derived.e kp.phi) [ none ↦ err not_coprime | some d' ↦ ok (derived.e, d') ]
