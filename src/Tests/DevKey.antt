-- ===== src/Tests/DevKey.antt =====
-- The server's key.
use eu_trust_sdk.Base.{◌*◌, ◌%◌, ◌≡◌, refl, some}
use eu_trust_sdk.Base.Bytes.{to_int}
use eu_trust_sdk.Base.Hex
use eu_trust_sdk.Rsa.Arith.{bit_len_from, bit_len}
use eu_trust_sdk.Rsa.Keys.{KeyPair, key_pair_from_components}
use eu_trust_sdk.Server.DevKey.{hex_to_int, load_dev_key}

-- The modulus is the product of the two factors and has 2048 bits, and the exponents go together.
dev_key :
    (kp : KeyPair) × (load_dev_key ≡ some kp)
    × (kp.n ≡ kp.p * kp.q)
    × (bit_len kp.n ≡ 2048)
    × (kp.e ≡ 65537)
    × (kp.e * kp.d % kp.phi ≡ 1)
unfolding load_dev_key hex_to_int Hex.decode Hex.digit_value to_int key_pair_from_components bit_len
    bit_len_from
dev_key = (_, refl, refl, refl, refl, refl)
