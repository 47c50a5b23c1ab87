-- ===== src/Rsa/Pss/Padding.antt =====
-- DB before it is masked: zero bytes, a one, and the salt.
use eu_trust_sdk.Base.{
  ℕ, zero, suc, ◌<◌, ◌≡◌, refl, true, ◌∷◌, ◌++◌, arith, drop, get_or, replicate, Text, [], length,
}
use eu_trust_sdk.Base.Bytes.{IsBytes}
use eu_trust_sdk.Rsa.Pss.{starts_with_zeros}

pub starts_with_zeros-replicate :
    (n : ℕ) (db : Text) → starts_with_zeros n (replicate n 0 ++ db) ≡ true
unfolding starts_with_zeros
starts_with_zeros-replicate zero db = refl
starts_with_zeros-replicate (suc n) db = starts_with_zeros-replicate n db

pub get_or-replicate : (n b : ℕ) (db : Text) → get_or (replicate n 0 ++ b ∷ db) n 0 ≡ b
get_or-replicate zero b db = refl
get_or-replicate (suc n) b db = get_or-replicate n b db

pub drop-replicate : (n b : ℕ) (db : Text) → drop (suc n) (replicate n 0 ++ b ∷ db) ≡ db
drop-replicate zero b db = refl
drop-replicate (suc n) b db = drop-replicate n b db

-- The first byte is a bit.
pub first_bit :
    (n : ℕ) (db : Text) → (d : ℕ) × (rest : Text) × (replicate n 0 ++ 1 ∷ db ≡ d ∷ rest) × (d < 2)
first_bit zero db = (1, db, refl, omega arith)
first_bit (suc n) db = (0, replicate n 0 ++ 1 ∷ db, refl, omega arith)

pub padding-IsBytes : (n : ℕ) (db : Text) → IsBytes db → IsBytes (replicate n 0 ++ 1 ∷ db)
padding-IsBytes zero db h = (omega arith, h)
padding-IsBytes (suc n) db h = (omega arith, padding-IsBytes n db h)

pub get_or-append_last : (xs : Text) (b : ℕ) → get_or (xs ++ b ∷ []) (length xs) 0 ≡ b
get_or-append_last [] b = refl
get_or-append_last (x ∷ xs) b = get_or-append_last xs b
