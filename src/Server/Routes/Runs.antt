-- ===== src/Server/Routes/Runs.antt =====
-- Requests, as calls of the handlers.
use eu_trust_sdk.Base.{
  ℕ, ◌≡◌, refl, Option, List, [], ◌∷◌, codes, text_eq, text_eq_iff, ◌≢◌, ◌↔◌, if◌then◌else◌, Text,
  Bool-cases, inl, inr, take,
}
use eu_trust_sdk.Crypto.{Crypto}
use eu_trust_sdk.Environment.{Float64}
use eu_trust_sdk.Rsa.Keys.{KeyPair}
use eu_trust_sdk.Server.{Server}
use eu_trust_sdk.Server.Calls.{Call, challenge, verify, siteverify, step, run}
use eu_trust_sdk.Server.Routes.{
  Incoming, no_content, cors_headers, body_of, cors_middleware, mux, serve,
}

-- The call of a handler that a path leads to, if any.
abbrev routed : Incoming → List Call
routed i =
    if text_eq i.path (codes "/challenge")
    then challenge i.clock i.random i.http ∷ []
    else if text_eq i.path (codes "/verify")
    then verify (i.clock 0) (i.clock 1) i.http i.verify_json ∷ []
    else if text_eq i.path (codes "/siteverify")
    then siteverify (i.clock 0) i.http.method (body_of i) ∷ []
    else []

abbrev pub calls_of : Incoming → List Call
calls_of i = if text_eq i.http.method (codes "OPTIONS") then [] else routed i

module _ (c : Crypto) (kp : KeyPair) (parse_float : Text → Option Float64)
    (reputation : Text → ℕ) where
  mux-run :
      (i : Incoming) (s : Server)
      → (mux c kp parse_float reputation i s).1 ≡ run c kp parse_float reputation (routed i) s
  unfolding mux run step
  mux-run i s = elim (Bool-cases (text_eq i.path (codes "/challenge"))) [
    | inl here ↦ rw (here, mux) refl
    | inr not_issue ↦ elim (Bool-cases (text_eq i.path (codes "/verify"))) [
      | inl here ↦ rw (not_issue, here, mux) refl
      | inr not_verify ↦ elim (Bool-cases (text_eq i.path (codes "/siteverify"))) [
        | inl here ↦ rw (not_issue, not_verify, here, mux) refl
        | inr not_redeem ↦ elim (Bool-cases (text_eq (take 8 i.path) (codes "/widget/"))) [
          | inl here ↦ rw (not_issue, not_verify, not_redeem, here, mux) refl
          | inr not_widget ↦ elim (Bool-cases (text_eq i.path (codes "/widget"))) [
            | inl here ↦ rw (not_issue, not_verify, not_redeem, not_widget, here, mux) refl
            | inr not_bare ↦ rw (not_issue, not_verify, not_redeem, not_widget, not_bare, mux) refl
          ]
        ]
      ]
    ]
  ]

  -- No route answers 204.
  mux-answer : (i : Incoming) (s : Server) → (mux c kp parse_float reputation i s).0 ≢ no_content
  unfolding mux
  mux-answer i s = elim (Bool-cases (text_eq i.path (codes "/challenge"))) [
    | inl here ↦ rw (here, mux) (λ e. cc e)
    | inr not_issue ↦ elim (Bool-cases (text_eq i.path (codes "/verify"))) [
      | inl here ↦ rw (not_issue, here, mux) (λ e. cc e)
      | inr not_verify ↦ elim (Bool-cases (text_eq i.path (codes "/siteverify"))) [
        | inl here ↦ rw (not_issue, not_verify, here, mux) (λ e. cc e)
        | inr not_redeem ↦ elim (Bool-cases (text_eq (take 8 i.path) (codes "/widget/"))) [
          | inl here ↦ rw (not_issue, not_verify, not_redeem, here, mux) (λ e. cc e)
          | inr not_widget ↦ elim (Bool-cases (text_eq i.path (codes "/widget"))) [
            | inl here ↦ rw (not_issue, not_verify, not_redeem, not_widget, here, mux) (λ e. cc e)
            | inr not_bare ↦
                rw (not_issue, not_verify, not_redeem, not_widget, not_bare, mux) (λ e. cc e)
          ]
        ]
      ]
    ]
  ]

  -- Every response carries the headers for other origins. Exactly the OPTIONS requests are answered
  -- with 204, and they change nothing; any other request changes the state as the call of a handler
  -- does that its path leads to, or not at all where it leads to none.
  pub serve_lem :
      (i : Incoming) (s : Server)
      → ((serve c kp parse_float reputation i s).0.headers ≡ cors_headers)
        × ((serve c kp parse_float reputation i s).1
            ≡ run c kp parse_float reputation (calls_of i) s)
        × (((serve c kp parse_float reputation i s).0.answer ≡ no_content)
            ↔ (i.http.method ≡ codes "OPTIONS"))
  unfolding serve cors_middleware run
  serve_lem i s =
      let same = text_eq_iff i.http.method (codes "OPTIONS") in
      elim (Bool-cases (text_eq i.http.method (codes "OPTIONS"))) [
        | inl preflight ↦
            rw (preflight, serve, cors_middleware) (refl, refl, (λ e. same.0 preflight, λ e. refl))
        | inr other ↦
            rw (other, serve, cors_middleware)
              (
                refl,
                mux-run i s,
                (λ e. absurd (mux-answer i s e), λ e. absurd (cc (other, same.1 e))),
              )
      ]
