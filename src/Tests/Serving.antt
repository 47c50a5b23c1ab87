-- ===== src/Tests/Serving.antt =====
-- The server: a challenge solved with its hashcash part alone, and a signature given.
use eu_trust_sdk.Base.{
  ℕ, ◌+◌, ◌*◌, ◌^◌, ◌≤◌, ◌≡◌, ◌↔◌, refl, Option, some, none, [], codes, text_eq, Text, replicate,
  ◌++◌, ◌∷◌,
}
use eu_trust_sdk.Base.Map
use eu_trust_sdk.Base.Map.{insert_self}
use eu_trust_sdk.Base.Bytes.{to_int, fill_bytes}
use eu_trust_sdk.Base.Hex
use eu_trust_sdk.Base.Assoc.{lookup}
use eu_trust_sdk.Base.Base64
use eu_trust_sdk.Environment.{Float64}
use eu_trust_sdk.Api.Metadata.{TrustMetadata, encode, decode_metadata, join_bytes}
use eu_trust_sdk.Challenge.Error as Failure
use eu_trust_sdk.Challenge.HashCash.{
  HashCashChallenge, scan_mask, zero_bits_from, count_leading_zero_bits, check_hash_cash,
  verify_hash_cash,
}
use eu_trust_sdk.Challenge.Argon2.{Argon2Challenge, difference, verify_argon2}
use eu_trust_sdk.Challenge.Composite
use eu_trust_sdk.Challenge.Composite.{
  ChallengePayload, ChallengeResponse, sum_scores, mean_of, probe_score, hash_cash_class,
  argon2_class,
}
use eu_trust_sdk.Challenge.Composite.Accepts.{HasClass, verify_iff}
use eu_trust_sdk.Rsa.Arith.{bit_len_from, bit_len, mod_exp, inverse_from, mod_inverse}
use eu_trust_sdk.Rsa.Keys.{KeyPair, modulus_len, exponent_of, derive_public_key, derive_key_pair}
use eu_trust_sdk.Rsa.Pss.{
  xor_bytes, clear_top, top_is_set, starts_with_zeros, mgf1_from, mgf1_sha384, salted_hash,
  pss_encode, check_db, pss_verify,
}
use eu_trust_sdk.Rsa.Protocol
use eu_trust_sdk.Rsa.Protocol.{build_msg_prime, blind_sign, sign_checked}
use eu_trust_sdk.Server.Issue.Spent.{handle_verify-challenges}
use eu_trust_sdk.Server.Issue.Signs.{IsSigned, handle_verify_iff}
use eu_trust_sdk.Server.{
  json, Server, ChallengeEntry, HttpRequest, new_server, extract_ip, before_colon, clean,
}
use eu_trust_sdk.Server.Issue.{
  VerifyResponse, VerifyRequest, predicted, answer, sign, judge_response, handle_verify,
}
use eu_trust_sdk.Server.Redeem.{read_body, check_signature, redeem, handle_siteverify}
use eu_trust_sdk.Tests.Toy.{toy}

program : Unit {0}
unfolding bit_len_from bit_len mod_exp inverse_from mod_inverse modulus_len exponent_of
    derive_public_key derive_key_pair xor_bytes clear_top top_is_set starts_with_zeros mgf1_from
    mgf1_sha384 salted_hash pss_encode check_db pss_verify build_msg_prime sign_checked blind_sign
    Protocol.verify Protocol.or_invalid Protocol.finalize to_int fill_bytes text_eq Hex.digit
    Hex.encode Hex.digit_value Hex.decode lookup Base64.char Base64.encode_with Base64.encode
    Base64.char_value Base64.skip_breaks Base64.last_quantum Base64.decode_quanta Base64.decode
    encode decode_metadata join_bytes scan_mask zero_bits_from count_leading_zero_bits
    check_hash_cash verify_hash_cash difference verify_argon2 sum_scores mean_of probe_score
    hash_cash_class argon2_class Composite.verify extract_ip before_colon clean sign judge_response
    handle_verify read_body check_signature redeem handle_siteverify
program = tt

abbrev pub parse_float : Text → Option Float64
parse_float value = none

abbrev pub reputation : Text → ℕ
reputation ip = 0

-- A modulus of 2048 bits.
abbrev pub kp : KeyPair
kp = record { n = 2 ^ 2047 + 1; e = 65537; d = 1; p = 2; q = 3; phi = 10 }

abbrev pub meta : TrustMetadata
meta = predicted 1 (10 ^ 9 * 3600 * 500000)

abbrev pub hash_cash : HashCashChallenge
hash_cash = record { nonce = codes "00ff"; difficulty_bits = 20 }

abbrev pub argon2 : Argon2Challenge
argon2 = record {
  nonce = codes "00";
  memory = 65536;
  iterations = 2;
  parallelism = 1;
  key_length = 2;
}

abbrev pub payload : ChallengePayload
payload = record {
  challenge_id = codes "a";
  hash_cash = some hash_cash;
  argon2 = some argon2;
  probes = [];
  expires_at = 120;
}

abbrev pub entry : ChallengeEntry
entry = record { payload = payload; predicted_meta = encode meta; expiry = 120 }

abbrev pub waiting : Server
waiting = record new_server { challenges = Map.insert Map.empty (codes "a") entry }

abbrev pub request : HttpRequest
request = record {
  method = codes "POST";
  site_key = [];
  forwarded = [];
  remote_addr = codes "10.0.0.1:99";
}

-- The Argon2 puzzle is left out.
abbrev pub solution : VerifyRequest
solution = record {
  challenge_id = codes "a";
  hash_cash = codes "0000000000000000";
  argon2_result = [];
  probe_results = [];
  blinded_msg = codes "AAU=";
  device_class = 1;
}

ip_run : extract_ip request ≡ codes "10.0.0.1"
unfolding program
ip_run = refl

hash_cash_run : verify_hash_cash toy hash_cash (codes "0000000000000000") ≡ Failure.ok tt
unfolding program
hash_cash_run = refl

-- With the hashcash solution alone the class is 1.
verify_run : Composite.verify toy 100 payload (answer solution) none ≡ Failure.ok (1, 0)
unfolding program
verify_run = refl

verify_late : Composite.verify toy 121 payload (answer solution) none ≡ Failure.err Failure.expired
unfolding program
verify_late = refl

verify_example : (Composite.verify toy 100 payload (answer solution) none ≡ Failure.ok (1, 0)) ↔ (
    (100 ≤ 120)
    × (codes "a" ≡ codes "a")
    × ((codes "0000000000000000" ≡ []) → ⊥)
    × (verify_hash_cash toy hash_cash (codes "0000000000000000") ≡ Failure.ok tt)
    × HasClass toy argon2 [] 1
    × (0 ≡ probe_score [] [] none))
verify_example = verify_iff toy 100 payload (answer solution) none hash_cash argon2 1 0 refl refl

abbrev pub reply : VerifyResponse
reply = record {
  blind_signature = Base64.encode (replicate 255 0 ++ 5 ∷ []);
  metadata = Base64.encode (encode meta);
}

pub handle_run :
    (handle_verify toy kp parse_float reputation 100 101 request (some solution) waiting).0
    ≡ json reply
unfolding program
handle_run = refl

signed_example :
    ((handle_verify toy kp parse_float reputation 100 101 request (some solution) waiting).0
      ≡ json reply)
    ↔ IsSigned toy kp parse_float reputation 100 solution waiting reply
signed_example =
    handle_verify_iff toy kp parse_float reputation 100 101 request solution waiting reply refl

spent_example :
    (handle_verify toy kp parse_float reputation 100 101 request
        (some solution)
        waiting).1.challenges
      (codes "a")
    ≡ Map.remove waiting.challenges (codes "a") (codes "a")
spent_example =
    handle_verify-challenges toy kp parse_float reputation 100 101 request solution waiting
      (codes "a") refl
