-- ===== src/Server/Calls/Entries.antt =====
-- The entries that `/challenge` stores, and what the other handlers do to stored ones.
use eu_trust_sdk.Base.{
  ℕ, ◌+◌, ◌/◌, ◌^◌, ◌≤◌, ◌≡◌, refl, subst, ◌∙◌, some, none, Option, codes, text_eq, text_eq_iff,
  Bool-cases, Option-cases, inl, inr, Text, arith, ltb,
}
use eu_trust_sdk.Base.Bytes.{fill_bytes}
use eu_trust_sdk.Base.Base64
use eu_trust_sdk.Base.Map
use eu_trust_sdk.Base.Map.{Map}
use eu_trust_sdk.Crypto.{Crypto}
use eu_trust_sdk.Environment.{Float64}
use eu_trust_sdk.Api.Metadata.{encode}
use eu_trust_sdk.Challenge.Error as Failure
use eu_trust_sdk.Challenge.Composite
use eu_trust_sdk.Challenge.Composite.{ChallengePayload}
use eu_trust_sdk.Challenge.HashCash.{HashCashChallenge, new_hash_cash_challenge}
use eu_trust_sdk.Challenge.Argon2.{Argon2Challenge, new_argon2_challenge}
use eu_trust_sdk.Challenge.Params.{ChallengeParams, generate_seed, derive_params}
use eu_trust_sdk.Rsa.Keys.{KeyPair}
use eu_trust_sdk.Temperature.Scorer.{bucket_ranges}
use eu_trust_sdk.Temperature.Store.{Store, score_to_bucket, record_event, score}
use eu_trust_sdk.Server.{
  Server, ChallengeEntry, HttpRequest, is_empty, extract_ip, clean, challenge_ttl,
}
use eu_trust_sdk.Server.Issue.{Randomness, predicted, offer, challenge_for, handle_challenge}

-- An entry for the challenge `id`: it has both puzzles, is named after its challenge, carries the
-- encoding of the metadata that were predicted, with one of the four buckets, and outlives its
-- challenge.
pub record IsEntry (id : Text) (entry : ChallengeEntry) : Type 0 where
  pub hash_cash : HashCashChallenge
  pub has_hash_cash : entry.payload.hash_cash ≡ some hash_cash
  pub argon2 : Argon2Challenge
  pub has_argon2 : entry.payload.argon2 ≡ some argon2
  pub named : entry.payload.challenge_id ≡ id
  pub bucket : ℕ
  pub time : ℕ
  pub in_table : bucket ≤ 3
  pub meta : entry.predicted_meta ≡ encode (predicted bucket time)
  pub outlives : entry.payload.expires_at ≤ entry.expiry

-- Every stored challenge is one that `/challenge` has made.
abbrev pub IsSound : Map ChallengeEntry → Type 0
IsSound m = (id : Text) (entry : ChallengeEntry) → m id ≡ some entry → IsEntry id entry

some-injective {ℓ} : {A : Type ℓ} {a b : A} → some a ≡ some b → a ≡ b
some-injective e = cc

ok-injective : {a b : ChallengePayload} → Failure.ok a ≡ Failure.ok b → a ≡ b
ok-injective e = cc

pub empty-IsSound : IsSound Map.empty
empty-IsSound id entry e = cc

pub insert-IsSound :
    (m : Map ChallengeEntry) (k : Text) (entry : ChallengeEntry)
    → IsSound m
    → IsEntry k entry
    → IsSound (Map.insert m k entry)
insert-IsSound m k entry sound made id other = elim (Bool-cases (text_eq k id)) [
  | inl same ↦ rw (same) (λ e.
      subst (IsEntry id) (some-injective e)
        (subst (λ t. IsEntry t entry) ((text_eq_iff k id).0 same) made))
  | inr differs ↦ rw (differs) (sound id other)
]

pub remove-IsSound : (m : Map ChallengeEntry) (k : Text) → IsSound m → IsSound (Map.remove m k)
remove-IsSound m k sound id entry = elim (Bool-cases (text_eq k id)) [
  | inl same ↦ rw same (λ e. cc e)
  | inr differs ↦ rw differs (sound id entry)
]

pub clean-IsSound : (now : ℕ) (s : Server) → IsSound s.challenges → IsSound (clean now s).challenges
unfolding clean
clean-IsSound now s sound id entry = elim (Option-cases (s.challenges id)) [
  | inl missing ↦ rw missing (λ e. cc e)
  | inr (there, found) ↦ elim (Bool-cases (ltb there.expiry now)) [
    | inl late ↦ rw (found, late) (λ e. cc e)
    | inr early ↦ rw (found, early) (λ e. sound id entry (found ∙ e))
  ]
]

score_to_bucket-le : (v : ℕ) → score_to_bucket v ≤ 3
unfolding score_to_bucket
score_to_bucket-le v = ground arith

pub score-bucket :
    (reputation : Text → ℕ) (now : ℕ) (ip site_key : Text) (s : Store)
    → (score reputation now ip site_key s).1 ≤ 3
unfolding score
score-bucket reputation now ip site_key s = score_to_bucket-le _

-- What `New` puts into a payload.
new-IsEntry :
    (params : ChallengeParams) (id : Text) (hash_random argon2_random : Option Text)
    (now bucket time expiry : ℕ) (payload : ChallengePayload)
    → Composite.new params id hash_random argon2_random now ≡ Failure.ok payload
    → bucket ≤ 3
    → now + challenge_ttl ≤ expiry
    → IsEntry id (record {
      payload = payload;
      predicted_meta = encode (predicted bucket time);
      expiry = expiry;
    })
unfolding Composite.new
new-IsEntry params id hash_random argon2_random now bucket time expiry payload e small later =
    let (hc, made_hc, e1) =
      Failure.>>=-eq-ok (new_hash_cash_challenge hash_random params.hash_cash_bits) _ e in
    let (a2, made_a2, e2) =
      Failure.>>=-eq-ok
        (new_argon2_challenge argon2_random params.argon2_memory params.argon2_iterations) _ e1 in
    subst
      (λ (p : ChallengePayload).
        IsEntry id (record {
          payload = p;
          predicted_meta = encode (predicted bucket time);
          expiry = expiry;
        }))
      (ok-injective e2)
      (record {
        hash_cash = hc;
        has_hash_cash = refl;
        argon2 = a2;
        has_argon2 = refl;
        named = refl;
        bucket = bucket;
        time = time;
        in_table = small;
        meta = refl;
        outlives = later;
      })

module _ (c : Crypto) (kp : KeyPair) (parse_float : Text → Option Float64)
    (reputation : Text → ℕ) where
  pub challenge_for-IsSound :
      (clock : ℕ → ℕ) (random : Randomness) (ip : Text) (bucket : ℕ) (s : Server)
      → clock 3 ≤ clock 5
      → bucket ≤ 3
      → IsSound s.challenges
      → IsSound (challenge_for c kp parse_float reputation clock random ip bucket s).1.challenges
  unfolding challenge_for offer
  challenge_for-IsSound clock random ip bucket s ordered small sound =
      let ts = fill_bytes 8 (clock 2 / 10 ^ 9) in
      let seed = generate_seed c.hmac_sha256 (codes "poc-server-secret") random.nonce ts ip in
      let id = Base64.url_encode random.id_bytes in
      elim (Option-cases (derive_params seed (bucket_ranges bucket))) [
        | inl panics ↦ rw (panics, challenge_for) sound
        | inr (params, derived) ↦
            elim (Failure.Result-cases
              (Composite.new params id random.hash_cash random.argon2 (clock 3))) [
                | inr (x, failure) ↦ rw (derived, failure, challenge_for) sound
                | inl (payload, made) ↦
                    rw (derived, made, challenge_for)
                      (insert-IsSound s.challenges id _ sound (
                        new-IsEntry params id random.hash_cash random.argon2 (clock 3) bucket
                          (clock 4) (clock 5 + challenge_ttl) payload made small
                          (omega (arith, ordered))))
              ]
      ]

  -- `/challenge` stores sound entries only.
  pub handle_challenge-IsSound :
      (clock : ℕ → ℕ) (random : Randomness) (r : HttpRequest) (s : Server)
      → clock 3 ≤ clock 5
      → IsSound s.challenges
      → IsSound (handle_challenge c kp parse_float reputation clock random r s).1.challenges
  unfolding handle_challenge
  handle_challenge-IsSound clock random r s ordered sound =
      elim (Bool-cases (text_eq r.method (codes "GET"))) [
        | inr other ↦ rw (other, handle_challenge) sound
        | inl get ↦ elim (Bool-cases (is_empty r.site_key)) [
          | inl missing ↦ rw (get, missing, handle_challenge) sound
          | inr there ↦
              let ip = extract_ip r in
              let store = record_event (clock 0) ip none s.temp_store in
              rw (get, there, handle_challenge)
                (challenge_for-IsSound clock random ip
                  (score reputation (clock 1) ip r.site_key store).1
                  (record s { temp_store = store }) ordered
                  (score-bucket reputation (clock 1) ip r.site_key store) sound)
        ]
      ]
