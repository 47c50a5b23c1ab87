-- ===== src/Tests/Running.antt =====
-- Calls one after the other, from a new server on: a challenge asked for and solved.
use eu_trust_sdk.Base.{
  ◌≡◌, ◌↔◌, refl, some, none, List, [], ◌∷◌, codes, arith, replicate, text_eq, ◌++◌,
}
use eu_trust_sdk.Base.Base64
use eu_trust_sdk.Base.Bytes.{to_int, fill_bytes}
use eu_trust_sdk.Base.Hex
use eu_trust_sdk.Base.Assoc.{lookup}
use eu_trust_sdk.Api.Metadata.{encode, time_bucket_from_time}
use eu_trust_sdk.Challenge.HashCash.{
  new_hash_cash_challenge, scan_mask, zero_bits_from, count_leading_zero_bits, check_hash_cash,
  verify_hash_cash,
}
use eu_trust_sdk.Challenge.Argon2.{new_argon2_challenge, difference, verify_argon2}
use eu_trust_sdk.Challenge.Composite
use eu_trust_sdk.Challenge.Composite.{
  probe_names, sum_scores, mean_of, probe_score, hash_cash_class, argon2_class,
}
use eu_trust_sdk.Challenge.Params.{generate_seed, in_range, derive_params}
use eu_trust_sdk.Challenge.Probes.{pick, pick_bytes, pick_rest, select_probes}
use eu_trust_sdk.Rsa.Arith.{bit_len_from, bit_len, mod_exp, inverse_from, mod_inverse}
use eu_trust_sdk.Rsa.Keys.{modulus_len, exponent_of, derive_public_key, derive_key_pair}
use eu_trust_sdk.Rsa.Protocol.{blind_sign, sign_checked}
use eu_trust_sdk.Temperature.Store.{subnet_key}
use eu_trust_sdk.Temperature.Scorer.{bucket_ranges}
use eu_trust_sdk.Temperature.Store.{
  last_twenty, record_probe, min100, score_to_bucket, count_after, fails, probe_signal, weighted,
  record_event, record_token_burn, score,
}
use eu_trust_sdk.Server.{HttpRequest, json, new_server, extract_ip, before_colon, clean}
use eu_trust_sdk.Server.Issue.{
  Randomness, VerifyRequest, VerifyResponse, offer, challenge_for, handle_challenge, sign,
  judge_response, handle_verify, predicted,
}
use eu_trust_sdk.Server.Issue.Offers.{IsOffer, handle_challenge_total}
use eu_trust_sdk.Server.Calls.{Call, step, run}
use eu_trust_sdk.Server.Calls.Entries.{IsSound, empty-IsSound}
use eu_trust_sdk.Server.Calls.Stored.{run-IsSound}
use eu_trust_sdk.Server.Calls.Signed.{IsSolved, run-IsSolved, handle_verify-clean}
use eu_trust_sdk.Server.Routes.{
  Incoming, cors_headers, no_content, serve, mux, cors_middleware, body_of,
}
use eu_trust_sdk.Server.Routes.Runs.{calls_of, serve_lem}
use eu_trust_sdk.Tests.Toy.{toy, toy-IsCrypto}
use eu_trust_sdk.Tests.Serving.{kp, parse_float, reputation, request, solution, waiting, reply}
use eu_trust_sdk.Tests.Overlaps.{waiting-IsSound}

unfoldable pub program : Unit {0}
unfolding text_eq to_int fill_bytes Hex.digit Hex.encode Hex.digit_value Hex.decode lookup
    Base64.char Base64.encode_with Base64.encode Base64.url_encode Base64.char_value
    Base64.skip_breaks Base64.last_quantum Base64.decode_quanta Base64.decode encode
    time_bucket_from_time new_hash_cash_challenge scan_mask zero_bits_from count_leading_zero_bits
    check_hash_cash verify_hash_cash new_argon2_challenge difference verify_argon2 Composite.new
    Composite.verify probe_names sum_scores mean_of probe_score hash_cash_class argon2_class
    generate_seed in_range derive_params pick pick_bytes pick_rest select_probes bit_len_from
    bit_len mod_exp inverse_from mod_inverse modulus_len exponent_of derive_public_key
    derive_key_pair blind_sign sign_checked subnet_key bucket_ranges last_twenty record_probe min100
    score_to_bucket count_after fails probe_signal weighted record_event record_token_burn score
    extract_ip before_colon offer challenge_for handle_challenge sign judge_response handle_verify
    step run serve mux cors_middleware body_of
program = tt

abbrev pub asking : HttpRequest
asking = record {
  method = codes "GET";
  site_key = codes "k";
  forwarded = [];
  remote_addr = codes "10.0.0.1:99";
}

abbrev pub random : Randomness
random = record {
  nonce = replicate 16 0;
  id_bytes = 0 ∷ [];
  hash_cash = some (replicate 16 0);
  argon2 = some (replicate 16 0);
}

abbrev asked : List Call
asked = Call.challenge (λ i. i) random asking ∷ []

abbrev answer_to : VerifyRequest
answer_to = record solution { challenge_id = codes "AA==" }

abbrev signed : VerifyResponse
signed = record {
  blind_signature = Base64.encode (replicate 255 0 ++ 5 ∷ []);
  metadata = Base64.encode (encode (predicted 0 4));
}

issue_run :
    (handle_verify toy kp parse_float reputation 100 101 request
      (some answer_to)
      (run toy kp parse_float reputation asked new_server)).0
    ≡ json signed
unfolding program
issue_run = refl

run-IsSolved_example :
    IsSolved toy kp parse_float reputation answer_to
      (run toy kp parse_float reputation asked new_server)
      signed
run-IsSolved_example =
    run-IsSolved toy kp parse_float reputation asked 100 101 request answer_to signed refl
      (omega arith, tt) issue_run

run-IsSound_example : IsSound (run toy kp parse_float reputation asked new_server).challenges
run-IsSound_example =
    run-IsSound toy kp parse_float reputation asked new_server (omega arith, tt) empty-IsSound

handle_verify-clean_example :
    ((handle_verify toy kp parse_float reputation 100 101 request
        (some solution)
        (clean 90 waiting)).0
      ≡ json reply)
    ↔ ((handle_verify toy kp parse_float reputation 100 101 request (some solution) waiting).0
        ≡ json reply)
handle_verify-clean_example =
    handle_verify-clean toy kp parse_float reputation 100 101 request solution waiting reply refl
      waiting-IsSound 90 (omega arith)

abbrev incoming : Incoming
incoming = record {
  path = codes "/challenge";
  http = asking;
  content_type = [];
  form_token = [];
  form_secret = [];
  verify_json = none;
  siteverify_json = none;
  clock = λ i. i;
  random = random;
}

serve_example :
    ((serve toy kp parse_float reputation incoming new_server).0.headers ≡ cors_headers)
    × ((serve toy kp parse_float reputation incoming new_server).1
        ≡ run toy kp parse_float reputation (calls_of incoming) new_server)
    × (((serve toy kp parse_float reputation incoming new_server).0.answer ≡ no_content)
        ↔ (asking.method ≡ codes "OPTIONS"))
serve_example = serve_lem toy kp parse_float reputation incoming new_server

offer_example :
    (o : IsOffer random 3
      (handle_challenge toy kp parse_float reputation (λ i. i) random asking new_server))
    × (o.bucket
        ≡ (score reputation 1
            (extract_ip asking)
            asking.site_key
            (record_event 0 (extract_ip asking) none new_server.temp_store)).1)
offer_example =
    handle_challenge_total toy kp parse_float reputation toy-IsCrypto (λ i. i) random
      (replicate 16 0) (replicate 16 0) asking new_server refl refl refl refl
