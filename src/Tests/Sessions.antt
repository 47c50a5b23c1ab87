-- ===== src/Tests/Sessions.antt =====
-- A whole session, from the challenge to the token, with a key of safe primes.
use eu_trust_sdk.Base.{
  ℕ, ◌≡◌, ◌≤◌, refl, some, none, [], ◌∷◌, ◌++◌, Text, replicate, arith, text_eq,
}
use eu_trust_sdk.Rsa.Error.{ok}
use eu_trust_sdk.Rsa.Keys.{public_key, modulus_len, exponent_of, derive_public_key}
use eu_trust_sdk.Rsa.Protocol.{
  blind, finalize, build_msg_prime, Blinded, Draws, blinding_factor, unwrap,
}
use eu_trust_sdk.Api.Metadata.{encode}
use eu_trust_sdk.Challenge.Composite.Honest.{argon2_answer}
use eu_trust_sdk.Challenge.Params.{ChallengeParams}
use eu_trust_sdk.Server.{Server, new_server, json, test_site_key}
use eu_trust_sdk.Server.Issue.{VerifyRequest, predicted, handle_challenge, handle_verify}
use eu_trust_sdk.Server.Issue.Offers.{IsOffer}
use eu_trust_sdk.Server.Calls.Entries.{empty-IsSound}
use eu_trust_sdk.Server.Redeem.{accepted}
use eu_trust_sdk.Server.Redeem.Accepts.{siteverify, spend}
use eu_trust_sdk.Server.Session.{IsSolution, IsBlinding, session_token}
use eu_trust_sdk.Tests.Toy.{toy, toy-IsCrypto, zeros-IsBytes}
use eu_trust_sdk.Tests.SafeKey.{key, key-IsSafeKey}
use eu_trust_sdk.Tests.Serving.{parse_float, reputation, request}
use eu_trust_sdk.Tests.Redeeming.{nonce}
use eu_trust_sdk.Tests.Running.{program as offering, asking, random}
use eu_trust_sdk.Base.Bytes.{to_int, fill_bytes}
use eu_trust_sdk.Base.Assoc.{lookup}
use eu_trust_sdk.Challenge.HashCash.{
  scan_mask, zero_bits_from, count_leading_zero_bits, check_hash_cash, verify_hash_cash,
}
use eu_trust_sdk.Challenge.Argon2.{difference, verify_argon2}
use eu_trust_sdk.Challenge.Composite.{
  sum_scores, mean_of, probe_score, hash_cash_class, argon2_class,
}
use eu_trust_sdk.Rsa.Arith.{bit_len_from, bit_len, mod_exp, inverse_from, mod_inverse}
use eu_trust_sdk.Rsa.Pss.{
  xor_bytes, clear_top, top_is_set, starts_with_zeros, mgf1_from, mgf1_sha384, salted_hash,
  pss_encode, check_db, pss_verify,
}
use eu_trust_sdk.Base.Base64
use eu_trust_sdk.Base.Hex
use eu_trust_sdk.Challenge.Composite

blinding : Unit {0}
unfolding bit_len_from bit_len mod_exp inverse_from mod_inverse modulus_len exponent_of
    derive_public_key xor_bytes clear_top top_is_set starts_with_zeros mgf1_from mgf1_sha384
    salted_hash pss_encode check_db pss_verify build_msg_prime blinding_factor unwrap blind to_int
    fill_bytes text_eq Hex.digit Hex.encode Hex.digit_value Hex.decode lookup Base64.char
    Base64.encode_with Base64.encode encode scan_mask zero_bits_from count_leading_zero_bits
    check_hash_cash verify_hash_cash difference verify_argon2 sum_scores mean_of probe_score
    hash_cash_class argon2_class Composite.verify
blinding = tt

abbrev encoded : Text
encoded = replicate 158 0 ++ 1 ∷ (replicate 96 0 ++ 0xbc ∷ [])

abbrev blinded : Blinded
blinded = record { blinded_msg = encoded; inv = 1 }

abbrev draws : Draws
draws = record { salt = some (replicate 48 0); factor = none }

abbrev zeros : Text
zeros = replicate 16 0

abbrev params : ChallengeParams
params = record {
  hash_cash_bits = 16;
  argon2_memory = 65536;
  argon2_iterations = 2;
  probe_indices = 0 ∷ 1 ∷ 2 ∷ [];
}

abbrev after : Server
after = (handle_challenge toy key parse_float reputation (λ i. i) random asking new_server).1

offered :
    IsOffer random 3
      (handle_challenge toy key parse_float reputation (λ i. i) random asking new_server)
unfolding offering
offered = record {
  offer = _;
  replied = refl;
  bucket = 0;
  in_table = omega arith;
  params = params;
  within = record {
    bits = (omega arith, omega arith);
    memory = (omega arith, omega arith);
    iterations = (omega arith, omega arith);
  };
  made = refl;
  entry = _;
  stored = refl;
  same = refl;
  told = refl;
}

abbrev answering : VerifyRequest
answering = record {
  challenge_id = Base64.url_encode random.id_bytes;
  hash_cash = Hex.encode (replicate 8 0);
  argon2_result = Hex.encode (argon2_answer toy toy-IsCrypto params zeros);
  probe_results = [];
  blinded_msg = Base64.encode encoded;
  device_class = 1;
}

solved :
    IsSolution toy toy-IsCrypto
      (Base64.url_encode random.id_bytes)
      zeros
      zeros
      params
      3
      100
      answering
unfolding offering
solved = record {
  named = refl;
  sol = replicate 8 0;
  sol_bytes = zeros-IsBytes 8;
  eight = refl;
  k = 240;
  bits = refl;
  below = omega arith;
  hash_sent = refl;
  answer_bytes = zeros-IsBytes 32;
  argon2_sent = refl;
  early = omega arith;
}

blinding_run : blind toy draws (public_key key) nonce (encode (predicted 0 4)) (some 1) ≡ ok blinded
unfolding blinding
blinding_run = refl

sent : IsBlinding toy key (encode (predicted 0 4)) answering nonce blinded
sent = record {
  bytes = zeros-IsBytes 8;
  eight = refl;
  draws = draws;
  salted = (refl, zeros-IsBytes 48);
  random_blind = some 1;
  blinds = blinding_run;
  sent = refl;
}

session_example :
    (blind_sig : Text) × (sig : Text) × (bucket : ℕ) × (time : ℕ) × (bucket ≤ 3)
    × ((handle_verify toy key parse_float reputation 100 101 request (some answering) after).0
        ≡ json (record {
          blind_signature = Base64.encode blind_sig;
          metadata = Base64.encode offered.entry.predicted_meta;
        }))
    × (finalize toy (public_key key) nonce offered.entry.predicted_meta blind_sig 1 ≡ ok sig)
    × (siteverify toy key 200
          (record {
            token = Base64.encode (sig ++ (offered.entry.predicted_meta ++ nonce));
            secret = test_site_key;
          })
          new_server
        ≡ (
          accepted (predicted bucket time),
          spend toy key 200 (sig ++ (offered.entry.predicted_meta ++ nonce)) new_server,
        ))
unfolding offered
session_example =
    session_token toy key parse_float reputation toy-IsCrypto (λ i. i) random zeros zeros asking
      request new_server new_server 100 101 200 answering nonce blinded key-IsSafeKey empty-IsSound
      (omega arith) refl refl (zeros-IsBytes 16) (zeros-IsBytes 16) offered solved sent refl refl
