-- ===== src/Challenge/Composite/Accepts.antt =====
-- What a response that `Verify` accepts has shown.
use eu_trust_sdk.Base.{
  ℕ, ◌≤◌, ◌≡◌, ◌≢◌, refl, sym, arith, Option, some, [], ◌∷◌, ltb, text_eq, text_eq_iff, Bool-cases,
  inl, inr, ◌⊎◌, Text, ◌↔◌, subst,
}
use eu_trust_sdk.Crypto.{Crypto}
use eu_trust_sdk.Challenge.Error.{Result, ok, ◌>>=◌, >>=-eq-ok, >>-eq-ok}
use eu_trust_sdk.Challenge.HashCash.{HashCashChallenge, verify_hash_cash}
use eu_trust_sdk.Challenge.Argon2.{Argon2Challenge, verify_argon2}
use eu_trust_sdk.Challenge.Composite.{
  ChallengePayload, ChallengeResponse, ProbeValidator, probe_score, hash_cash_class, argon2_class,
  verify,
}

module _ (c : Crypto) where
  -- What a client has shown whose Argon2 result is `result`.
  abbrev pub HasClass : Argon2Challenge → Text → ℕ → Type 0
  HasClass a2 result class =
      ((result ≡ []) × (class ≡ 1))
      ⊎ ((result ≢ []) × (verify_argon2 c a2 result ≡ ok tt) × (class ≡ 2))

  hash_cash_class_iff :
      (hc : HashCashChallenge) (solution : Text) (class : ℕ)
      → (hash_cash_class c (some hc) solution ≡ ok class)
        ↔ ((solution ≢ []) × (verify_hash_cash c hc solution ≡ ok tt) × (class ≡ 1))
  unfolding hash_cash_class
  hash_cash_class_iff hc [] class = ground arith
  hash_cash_class_iff hc (x ∷ solution) class =
      ground (arith, >>-eq-ok (verify_hash_cash c hc (x ∷ solution)) (ok 1) class)

  argon2_class_iff :
      (a2 : Argon2Challenge) (result : Text) (class : ℕ)
      → (argon2_class c (some a2) result 1 ≡ ok class) ↔ HasClass a2 result class
  unfolding argon2_class
  argon2_class_iff a2 [] class = ground arith
  argon2_class_iff a2 (x ∷ result) class =
      ground (arith, >>-eq-ok (verify_argon2 c a2 (x ∷ result)) (ok 2) class)

  abbrev solved : HashCashChallenge → Argon2Challenge → Text → Text → ℕ → Result (ℕ × ℕ)
  solved hc a2 solution result score = do
    class ← hash_cash_class c (some hc) solution
    reached ← argon2_class c (some a2) result class
    ok (reached, score)

  solved_iff :
      (hc : HashCashChallenge) (a2 : Argon2Challenge) (solution result : Text) (class score s : ℕ)
      → (solved hc a2 solution result s ≡ ok (class, score)) ↔ (
          (solution ≢ [])
          × (verify_hash_cash c hc solution ≡ ok tt)
          × HasClass a2 result class
          × (score ≡ s))
  solved_iff hc a2 solution result class score s = (
    λ e.
        let (k, first, rest) = >>=-eq-ok (hash_cash_class c (some hc) solution) _ e in
        let (r, second, last) = >>=-eq-ok (argon2_class c (some a2) result k) _ rest in
        let (given, right, is_one) = (hash_cash_class_iff hc solution k).0 first in
        let again = subst (λ (t : ℕ). argon2_class c (some a2) result t ≡ ok r) is_one second in
        let shown : HasClass a2 result r = (argon2_class_iff a2 result r).0 again in
        let same_class : r ≡ class = cc in
        let same_score : s ≡ score = cc in
        (given, right, subst (HasClass a2 result) same_class shown, sym same_score),
    λ (given, right, shown, same). rw (
      (hash_cash_class_iff hc solution 1).1 (given, right, refl),
      (argon2_class_iff a2 result class).1 shown,
      same,
    ),
  )

  -- For a challenge with both puzzles, `Verify` returns a class and a score exactly when the
  -- challenge has not expired, the response names it, its hashcash solution is not empty and is
  -- right, and either its Argon2 result is empty and the class is 1, or that result is right and
  -- the class is 2; the score is the mean of the probes' scores.
  pub verify_iff :
      (now : ℕ) (payload : ChallengePayload) (resp : ChallengeResponse) (v : Option ProbeValidator)
      (hc : HashCashChallenge) (a2 : Argon2Challenge) (class score : ℕ)
      → payload.hash_cash ≡ some hc
      → payload.argon2 ≡ some a2
      → (verify c now payload resp v ≡ ok (class, score)) ↔ (
          (now ≤ payload.expires_at)
          × (resp.challenge_id ≡ payload.challenge_id)
          × (resp.hash_cash_solution ≢ [])
          × (verify_hash_cash c hc resp.hash_cash_solution ≡ ok tt)
          × HasClass a2 resp.argon2_result class
          × (score ≡ probe_score payload.probes resp.probe_results v))
  unfolding verify
  verify_iff now payload resp v hc a2 class score eh ea =
      let parts =
        solved_iff hc a2 resp.hash_cash_solution resp.argon2_result class score
          (probe_score payload.probes resp.probe_results v) in
      let ids = text_eq_iff resp.challenge_id payload.challenge_id in
      rw (eh, ea)
        (elim (Bool-cases (ltb payload.expires_at now)) [
          | inl late ↦ rw late (ground (arith, late))
          | inr early ↦ elim (Bool-cases (text_eq resp.challenge_id payload.challenge_id)) [
            | inl same ↦ rw (early, same) (ground (arith, parts, ids, same, early))
            | inr other ↦ rw (early, other) (ground (arith, ids, other))
          ]
        ])
