-- ===== src/Server/Session.antt =====
-- A session of an honest client, from the challenge to the redeemed token.
use eu_trust_sdk.Base.{
  ℕ, ◌+◌, ◌*◌, ◌^◌, ◌≤◌, ◌<◌, ◌≡◌, ◌∙◌, sym, ap, subst, Option, none, some, codes, length, Text,
  ◌++◌,
}
use eu_trust_sdk.Base.Bytes.{IsBytes, to_int}
use eu_trust_sdk.Base.Hex
use eu_trust_sdk.Base.Base64
use eu_trust_sdk.Crypto.{Crypto, IsCrypto}
use eu_trust_sdk.Environment.{Float64}
use eu_trust_sdk.Challenge.Error as Failure
use eu_trust_sdk.Challenge.Composite
use eu_trust_sdk.Challenge.Composite.{ChallengePayload, probe_score}
use eu_trust_sdk.Challenge.Composite.Honest.{argon2_answer, verify-new}
use eu_trust_sdk.Challenge.Params.{ChallengeParams}
use eu_trust_sdk.Rsa.Error.{ok}
use eu_trust_sdk.Rsa.Keys.{KeyPair, public_key}
use eu_trust_sdk.Rsa.Generate.Safe.{IsSafeKey}
use eu_trust_sdk.Rsa.Protocol.Correct.{IsSalt}
use eu_trust_sdk.Rsa.Protocol.{Blinded, Draws, blind, finalize}
use eu_trust_sdk.Server.{Server, Reply, HttpRequest, json, test_site_key}
use eu_trust_sdk.Server.Issue.{
  Randomness, ChallengeReply, VerifyRequest, answer, validator, predicted, handle_challenge,
  handle_verify,
}
use eu_trust_sdk.Server.Issue.Offers.{IsOffer}
use eu_trust_sdk.Server.Calls.Entries.{IsSound, handle_challenge-IsSound}
use eu_trust_sdk.Server.Redeem.{accepted}
use eu_trust_sdk.Server.Redeem.Accepts.{siteverify, spend}
use eu_trust_sdk.Server.Honest.{IsHonest, honest_token}

-- What a client does with the puzzles of a challenge: eight bytes whose digest with the nonce of the
-- first lies below the bound, the bytes that Argon2 gives for the second, and both in time.
pub record IsSolution (c : Crypto) (laws : IsCrypto c) (id hash_nonce argon2_nonce : Text)
    (params : ChallengeParams) (made now : ℕ) (req : VerifyRequest) : Type 0 where
  pub named : req.challenge_id ≡ id
  pub sol : Text
  pub sol_bytes : IsBytes sol
  pub eight : length sol ≡ 8
  pub k : ℕ
  pub bits : k + params.hash_cash_bits ≡ 256
  pub below : to_int (c.sha256 (hash_nonce ++ sol)) < 2 ^ k
  pub hash_sent : req.hash_cash ≡ Hex.encode sol
  pub answer_bytes : IsBytes (argon2_answer c laws params argon2_nonce)
  pub argon2_sent : req.argon2_result ≡ Hex.encode (argon2_answer c laws params argon2_nonce)
  pub early : now ≤ made + 120 * 10 ^ 9

-- What it does with the metadata of a challenge: a nonce of eight bytes, blinded with them and sent.
pub record IsBlinding (c : Crypto) (kp : KeyPair) (meta : Text) (req : VerifyRequest) (nonce : Text)
    (b : Blinded) : Type 0 where
  pub bytes : IsBytes nonce
  pub eight : length nonce ≡ 8
  pub draws : Draws
  pub salted : IsSalt draws.salt
  pub random_blind : Option ℕ
  pub blinds : blind c draws (public_key kp) nonce meta random_blind ≡ ok b
  pub sent : req.blinded_msg ≡ Base64.encode b.blinded_msg

ok-injective : {p q : ChallengePayload} → Failure.ok p ≡ Failure.ok q → p ≡ q
ok-injective e = cc

module _ (c : Crypto) (kp : KeyPair) (parse_float : Text → Option Float64) (reputation : Text → ℕ)
    (laws : IsCrypto c) (random : Randomness) (hash_nonce argon2_nonce : Text) (now : ℕ) where
  abbrev id : Text
  id = Base64.url_encode random.id_bytes

  abbrev checker : Text → Text → ℕ
  checker = validator c kp parse_float reputation

  -- The verdict on the response to a challenge that was offered.
  offer-solved :
      (result : Reply ChallengeReply × Server) (o : IsOffer random now result) (later : ℕ)
      (req : VerifyRequest)
      → random.hash_cash ≡ some hash_nonce
      → random.argon2 ≡ some argon2_nonce
      → IsBytes hash_nonce
      → IsBytes argon2_nonce
      → IsSolution c laws id hash_nonce argon2_nonce o.params now later req
      → Composite.verify c later o.entry.payload (answer req) (some checker)
        ≡ Failure.ok (2, probe_score o.entry.payload.probes req.probe_results (some checker))
  offer-solved result o later req h a hash_bytes argon2_bytes x =
      let (payload, made, passed) =
        verify-new c laws o.params id hash_nonce argon2_nonce x.sol now later x.k (answer req)
          (some checker) hash_bytes argon2_bytes x.sol_bytes x.answer_bytes x.eight x.bits x.below
          x.early x.named x.hash_sent x.argon2_sent in
      let offered : Composite.new o.params id (some hash_nonce) (some argon2_nonce) now
          ≡ Failure.ok o.offer.payload =
        subst (λ t. Composite.new o.params id (some hash_nonce) t now ≡ Failure.ok o.offer.payload)
          a
          (subst (λ t. Composite.new o.params id t random.argon2 now ≡ Failure.ok o.offer.payload) h
            o.made) in
      let same : payload ≡ o.entry.payload = ok-injective (sym made ∙ offered) ∙ sym o.same in
      subst
        (λ (p : ChallengePayload).
          Composite.verify c later p (answer req) (some checker)
          ≡ Failure.ok (2, probe_score p.probes req.probe_results (some checker)))
        same passed

  abbrev honest_of :
      (result : Reply ChallengeReply × Server) (o : IsOffer random now result) (later : ℕ)
      (req : VerifyRequest) (nonce : Text) (b : Blinded)
      → random.hash_cash ≡ some hash_nonce
      → random.argon2 ≡ some argon2_nonce
      → IsBytes hash_nonce
      → IsBytes argon2_nonce
      → IsSound result.1.challenges
      → IsSolution c laws id hash_nonce argon2_nonce o.params now later req
      → IsBlinding c kp o.entry.predicted_meta req nonce b
      → IsHonest c kp checker result.1 later req nonce b
  honest_of result o later req nonce b h a hash_bytes argon2_bytes sound x y =
      let stored : result.1.challenges req.challenge_id ≡ some o.entry =
        ap result.1.challenges x.named ∙ o.stored in
      record {
        entry = o.entry;
        stored = stored;
        made = sound req.challenge_id o.entry stored;
        verdict = _;
        solved = offer-solved result o later req h a hash_bytes argon2_bytes x;
        bytes = y.bytes;
        eight = y.eight;
        draws = y.draws;
        salted = y.salted;
        random_blind = y.random_blind;
        blinds = y.blinds;
        sent = y.sent;
      }

-- An honest client's session with a key of 2048 bits as `GenerateKey` makes them, of two different
-- safe primes of half that length. From a state in which all stored challenges are as `/challenge`
-- makes them, what `/challenge` has offered within the last 120 seconds, once its puzzles are
-- solved and a nonce is blinded with its metadata, gets a blind signature from `/verify`;
-- `Finalize` makes a signature of that, and `/siteverify` accepts the token in any state in which
-- the nonce is not spent, with class 2 and one of the four buckets.
pub session_token :
    (c : Crypto) (kp : KeyPair) (parse_float : Text → Option Float64) (reputation : Text → ℕ)
    (laws : IsCrypto c) (clock : ℕ → ℕ) (random : Randomness) (hash_nonce argon2_nonce : Text)
    (ask r : HttpRequest) (s t : Server) (later later' now' : ℕ) (req : VerifyRequest)
    (nonce : Text) (b : Blinded)
    → IsSafeKey 2048 kp
    → IsSound s.challenges
    → clock 3 ≤ clock 5
    → random.hash_cash ≡ some hash_nonce
    → random.argon2 ≡ some argon2_nonce
    → IsBytes hash_nonce
    → IsBytes argon2_nonce
    → (o : IsOffer random
        (clock 3)
        (handle_challenge c kp parse_float reputation clock random ask s))
    → IsSolution c laws
        (Base64.url_encode random.id_bytes)
        hash_nonce
        argon2_nonce
        o.params
        (clock 3)
        later
        req
    → IsBlinding c kp o.entry.predicted_meta req nonce b
    → r.method ≡ codes "POST"
    → t.tokens (Base64.encode nonce) ≡ none
    → (blind_sig : Text) × (sig : Text) × (bucket : ℕ) × (time : ℕ) × (bucket ≤ 3)
      × ((handle_verify c kp parse_float reputation later later' r
            (some req)
            (handle_challenge c kp parse_float reputation clock random ask s).1).0
          ≡ json (record {
            blind_signature = Base64.encode blind_sig;
            metadata = Base64.encode o.entry.predicted_meta;
          }))
      × (finalize c (public_key kp) nonce o.entry.predicted_meta blind_sig b.inv ≡ ok sig)
      × (siteverify c kp now'
            (record {
              token = Base64.encode (sig ++ (o.entry.predicted_meta ++ nonce));
              secret = test_site_key;
            })
            t
          ≡ (
            accepted (predicted bucket time),
            spend c kp now' (sig ++ (o.entry.predicted_meta ++ nonce)) t,
          ))
session_token c kp parse_float reputation laws clock random hash_nonce argon2_nonce ask r s t later
      later' now' req nonce b safe sound ordered h a hash_bytes argon2_bytes o x y post fresh =
    let honest =
      honest_of c kp parse_float reputation laws random hash_nonce argon2_nonce (clock 3)
        (handle_challenge c kp parse_float reputation clock random ask s) o later req nonce b h a
        hash_bytes argon2_bytes
        (handle_challenge-IsSound c kp parse_float reputation clock random ask s ordered sound) x
        y in
    let (blind_sig, sig, signs, finalizes, accepts) =
      honest_token c kp parse_float reputation
        (handle_challenge c kp parse_float reputation clock random ask s).1 t later later' now' r
        req nonce b laws safe post honest fresh in
    (
      blind_sig, sig, honest.made.bucket, honest.made.time, honest.made.in_table, signs, finalizes,
      accepts,
    )
