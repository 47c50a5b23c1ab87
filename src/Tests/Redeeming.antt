-- ===== src/Tests/Redeeming.antt =====
-- A token accepted once, refused a second time, and accepted again when its entry has run out.
use eu_trust_sdk.Base.{
  ◌+◌, ◌*◌, ◌^◌, ◌≡◌, ◌↔◌, refl, arith, true, some, List, [], ◌∷◌, ◌++◌, replicate, text_eq, Text,
}
use eu_trust_sdk.Base.Map
use eu_trust_sdk.Base.Map.{insert_self}
use eu_trust_sdk.Base.Bytes.{to_int, fill_bytes}
use eu_trust_sdk.Base.Base64
use eu_trust_sdk.Api.Metadata.{
  TrustMetadata, encode, decode_metadata, join_bytes, time_bucket_from_time,
}
use eu_trust_sdk.Api.Metadata.RoundTrip.{IsMetadata}
use eu_trust_sdk.Rsa.Arith.{bit_len_from, bit_len, mod_exp}
use eu_trust_sdk.Rsa.Error.{ok}
use eu_trust_sdk.Rsa.Keys.{public_key, modulus_len, exponent_of, derive_public_key}
use eu_trust_sdk.Rsa.Pss.{
  xor_bytes, clear_top, top_is_set, starts_with_zeros, mgf1_from, mgf1_sha384, salted_hash,
  check_db, pss_verify,
}
use eu_trust_sdk.Rsa.Protocol
use eu_trust_sdk.Rsa.Protocol.{build_msg_prime}
use eu_trust_sdk.Server.{Server, new_server, clean, test_site_key, token_ttl}
use eu_trust_sdk.Server.Redeem.{
  SiteVerifyRequest, accepted, duplicate, nonce_key, read_body, check_signature, redeem,
  handle_siteverify,
}
use eu_trust_sdk.Server.Redeem.Accepts.{
  succeeded, spend, IsRequest, siteverify, IsSpendable, siteverify_iff,
}
use eu_trust_sdk.Server.Redeem.Again.{siteverify-again}
use eu_trust_sdk.Server.Redeem.Finalized.{siteverify-finalized}
use eu_trust_sdk.Server.Calls.{Call, cleanup, run}
use eu_trust_sdk.Server.Calls.Once.{siteverify-duplicate}
use eu_trust_sdk.Tests.Toy.{toy, zeros-IsBytes}
use eu_trust_sdk.Tests.Serving.{kp, meta, parse_float, reputation, request, solution}

program : Unit {0}
unfolding time_bucket_from_time bit_len_from bit_len mod_exp modulus_len exponent_of
    derive_public_key xor_bytes clear_top top_is_set starts_with_zeros mgf1_from mgf1_sha384
    salted_hash check_db pss_verify build_msg_prime Protocol.verify Protocol.or_invalid
    Protocol.finalize to_int fill_bytes text_eq Base64.char Base64.encode_with Base64.encode
    Base64.char_value Base64.skip_breaks Base64.last_quantum Base64.decode_quanta Base64.decode
    encode decode_metadata join_bytes read_body check_signature redeem handle_siteverify
program = tt

abbrev pub nonce : Text
nonce = replicate 8 0

abbrev pub sig : Text
sig = replicate 158 0 ++ 1 ∷ (replicate 96 0 ++ 0xbc ∷ [])

abbrev pub token : Text
token = sig ++ (encode meta ++ nonce)

abbrev pub redemption : SiteVerifyRequest
redemption = record { token = Base64.encode token; secret = test_site_key }

size_run : modulus_len kp.n ≡ 256
unfolding program
size_run = refl

finalize_run : Protocol.finalize toy (public_key kp) nonce (encode meta) sig 1 ≡ ok sig
unfolding program
finalize_run = refl

meta-IsMetadata : IsMetadata meta
unfolding time_bucket_from_time
meta-IsMetadata = record {
  class = omega arith;
  temperature = omega arith;
  device = omega arith;
  time = omega arith;
}

finalized_example :
    siteverify toy kp 50 redemption new_server ≡ (accepted meta, spend toy kp 50 token new_server)
finalized_example =
    siteverify-finalized toy kp 50 new_server nonce sig sig 1 meta meta-IsMetadata (zeros-IsBytes 8)
      refl size_run finalize_run refl

pub redemption-IsRequest : IsRequest toy kp redemption token
unfolding program
redemption-IsRequest = record { right_secret = refl; decoded = refl; long = refl }

pub success_run : succeeded (siteverify toy kp 50 redemption new_server).0 ≡ true
unfolding program
success_run = refl

success_example :
    (succeeded (siteverify toy kp 50 redemption new_server).0 ≡ true)
    ↔ ((m : TrustMetadata) × IsSpendable toy kp token m new_server)
success_example = siteverify_iff toy kp 50 redemption token new_server redemption-IsRequest

-- Accepted at 50 ns, cleaned up after 301 s, accepted at 302 s.
again_example :
    succeeded
      (siteverify toy kp
        (302 * 10 ^ 9)
        redemption
        (clean (301 * 10 ^ 9) (siteverify toy kp 50 redemption new_server).1)).0
    ≡ true
again_example =
    siteverify-again toy kp 50 (301 * 10 ^ 9) (302 * 10 ^ 9) redemption token new_server
      redemption-IsRequest success_run (omega arith)

abbrev after : Server
after = spend toy kp 50 token new_server

abbrev between : List Call
between = Call.verify 60 61 request (some solution) ∷ cleanup (200 * 10 ^ 9) ∷ []

duplicate_example :
    siteverify toy kp (250 * 10 ^ 9) redemption (run toy kp parse_float reputation between after)
    ≡ (duplicate, run toy kp parse_float reputation between after)
duplicate_example =
    siteverify-duplicate toy kp parse_float reputation (record { expiry = 50 + token_ttl }) between
      after (250 * 10 ^ 9) redemption token
      (insert_self Map.empty (nonce_key token) (record { expiry = 50 + token_ttl }))
      (tt, (omega arith, tt)) redemption-IsRequest
