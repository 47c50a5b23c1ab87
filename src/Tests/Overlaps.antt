-- ===== src/Tests/Overlaps.antt =====
-- Calls that overlap.
use eu_trust_sdk.Base.{◌*◌, ◌^◌, ◌≡◌, refl, [], ◌∷◌, codes, arith, true, subst}
use eu_trust_sdk.Api.Metadata.{TrustMetadata}
use eu_trust_sdk.Server.{Server, json, new_server}
use eu_trust_sdk.Server.Calls.Entries.{IsSound, IsEntry, insert-IsSound, empty-IsSound}
use eu_trust_sdk.Server.Redeem.{accepted, redeem}
use eu_trust_sdk.Server.Redeem.Accepts.{succeeded, siteverify-redeem}
use eu_trust_sdk.Server.Overlap.{
  Verification, verify_load, verify_done, redeem_load, redeem_done, System, Reach,
}
use eu_trust_sdk.Server.Overlap.Races.{verify_twice, redeem_twice}
use eu_trust_sdk.Tests.Toy.{toy}
use eu_trust_sdk.Tests.Serving.{
  kp, parse_float, reputation, request, solution, hash_cash, argon2, entry, waiting, reply,
  handle_run,
}
use eu_trust_sdk.Tests.Redeeming.{token, redemption, redemption-IsRequest, success_run}

abbrev call : Verification
call = record { now = 100; later = 101; http = request; req = solution }

abbrev both : System
both = record { shared = waiting; threads = verify_load call ∷ verify_load call ∷ [] }

verify_twice_example :
    (last : Server) × Reach toy kp parse_float reputation both (record {
      shared = last;
      threads = verify_done call (json reply) ∷ verify_done call (json reply) ∷ [];
    })
verify_twice_example =
    verify_twice toy kp parse_float reputation call call waiting reply reply refl refl handle_run
      handle_run

abbrev spending : System
spending = record {
  shared = new_server;
  threads = redeem_load 50 token ∷ redeem_load 60 token ∷ [];
}

redeem_run : succeeded (redeem toy kp 50 token new_server).0 ≡ true
redeem_run =
    subst (λ x. succeeded x.0 ≡ true)
      (siteverify-redeem toy kp 50 redemption token new_server redemption-IsRequest) success_run

redeem_twice_example :
    (meta : TrustMetadata) × (last : Server) × Reach toy kp parse_float reputation spending
      (record {
        shared = last;
        threads = redeem_done token (accepted meta) ∷ redeem_done token (accepted meta) ∷ [];
      })
redeem_twice_example = redeem_twice toy kp parse_float reputation 50 60 token new_server redeem_run

entry-IsEntry : IsEntry (codes "a") entry
entry-IsEntry = record {
  hash_cash = hash_cash;
  has_hash_cash = refl;
  argon2 = argon2;
  has_argon2 = refl;
  named = refl;
  bucket = 1;
  time = 10 ^ 9 * 3600 * 500000;
  in_table = omega arith;
  meta = refl;
  outlives = omega arith;
}

pub waiting-IsSound : IsSound waiting.challenges
waiting-IsSound = insert-IsSound _ (codes "a") entry empty-IsSound entry-IsEntry
