-- ===== src/Challenge/Error.antt =====
-- The errors of internal/challenge, and results that may be one.
use mathlib.Core.Path.{◌≡◌, refl}
use mathlib.Core.Logic.{◌↔◌, ◌⊎◌, inl, inr}

pub data Error : Type 0 where
  -- `ErrHashCashFailed` and `ErrArgon2Failed`.
  hash_cash_failed argon2_failed : Error
  -- A challenge's own nonce is no hex text.
  invalid_nonce : Error
  -- The errors that `Verify` makes.
  expired id_mismatch missing_hash_cash : Error
  -- The source of random bytes failed.
  read_error : Error

pub data Result {ℓ} (A : Type ℓ) : Type ℓ where
  err : Error → Result A
  ok : A → Result A

infixl 5 ◌>>=◌ ◌>>◌
abbrev pub ◌>>=◌ {ℓ κ} : {A : Type ℓ} {B : Type κ} → Result A → (A → Result B) → Result B
err failure >>= next = err failure
ok value >>= next = next value

abbrev pub ◌>>◌ {ℓ} : {B : Type ℓ} → Result (Unit {0}) → Result B → Result B
first >> second = first >>= λ _. second

-- The parts of a chain that succeeded.
pub >>=-eq-ok {ℓ κ} :
    {A : Type ℓ} {B : Type κ} (first : Result A) (next : A → Result B) {out : B}
    → (first >>= next) ≡ ok out
    → (value : A) × (first ≡ ok value) × (next value ≡ ok out)
>>=-eq-ok (err failure) next e = cc
>>=-eq-ok (ok value) next e = (value, refl, e)

pub >>-eq-ok {ℓ} :
    {B : Type ℓ} (m : Result (Unit {0})) (k : Result B) (b : B)
    → ((m >> k) ≡ ok b) ↔ ((m ≡ ok tt) × (k ≡ ok b))
>>-eq-ok (ok tt) k b = (λ e. (refl, e), λ h. h.1)
>>-eq-ok (err x) k b = (λ e. cc, λ h. cc)

pub Result-cases {ℓ} :
    {A : Type ℓ} (r : Result A) → ((a : A) × (r ≡ ok a)) ⊎ ((x : Error) × (r ≡ err x))
Result-cases (ok a) = inl (a, refl)
Result-cases (err x) = inr (x, refl)
