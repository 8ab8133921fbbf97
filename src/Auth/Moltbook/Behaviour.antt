-- ===== src/Auth/Moltbook/Behaviour.antt =====
-- What verify_identity returns (meritmolt/auth/moltbook.py).
use meritmolt.Prelude.{
  ℕ, String, Bool, true, ◌≡◌, refl, ◌⊎◌, not, inl, inr, Option, none, some, arith, str_eq,
  Bool-cases, Option-cases,
}
use meritmolt.Config.{Settings}
use meritmolt.Json.{Json}
use meritmolt.Retrying.{Attempt, returned, raised, Retrying}
use meritmolt.Auth.Moltbook.{
  MbAgentInfo, Exception, Response, unreachable, response, should_retry, read_agent, read_body,
  read_response, verify_once, verify_identity, to_result,
}

Attempt-cases {ℓ κ} :
    {E : Type ℓ} {A : Type κ} (r : Attempt E A)
    → ((a : A) × (r ≡ returned a)) ⊎ ((e : E) × (r ≡ raised e))
Attempt-cases (returned a) = inl (a, refl)
Attempt-cases (raised e) = inr (e, refl)

-- The attempt is not one that the decorator repeats.
abbrev is_final : Attempt Exception MbAgentInfo → Bool
is_final (returned a) = true
is_final (raised e) = not (should_retry e)

read_agent_final :
    (render : Json → String) (o : Option (Json × Json)) → is_final (read_agent render o) ≡ true
unfolding read_agent should_retry
read_agent_final render none = refl
read_agent_final render (some (agent_id, name)) = ground arith

read_response_final :
    (render : Json → String) (r : Response) → is_final (read_response render r) ≡ true
unfolding read_response should_retry
read_response_final render unreachable = refl
read_response_final render (response status body) =
    ground (arith, read_agent_final render (read_body body))

verify_once_final :
    (render : Json → String) (settings : Settings) (r : Response)
    → is_final (verify_once render settings r) ≡ true
unfolding verify_once
verify_once_final render settings r = elim (Option-cases settings.mm_moltbook_app_key) [
  | inl e ↦ rw (e, verify_once) (unfold should_retry in refl)
  | inr (key, e) ↦ elim (Bool-cases (str_eq key "")) [
    | inl t ↦ rw (e, verify_once) (rw t (unfold should_retry in refl))
    | inr f ↦ rw (e, verify_once) (rw f (read_response_final render r))
  ]
]

-- The decorator never makes a second attempt: the outcome of the first POST decides, also where the
-- service is unreachable or answers 5xx.
pub verify_identity_first :
    (tenacity : Retrying Exception MbAgentInfo) (render : Json → String) (settings : Settings)
    (responses : ℕ → Response)
    → verify_identity tenacity render settings responses
      ≡ to_result (verify_once render settings (responses 0))
unfolding verify_identity
verify_identity_first tenacity render settings responses =
    elim (Attempt-cases (verify_once render settings (responses 0))) [
      | inl (a, e) ↦ rw (tenacity.returns should_retry 2 _ a e, e)
      | inr (x, e) ↦ rw (
        tenacity.gives_up should_retry 2 _ x e (
            let final : not (should_retry x) ≡ true =
              rw e at (verify_once_final render settings (responses 0)) in
            ground arith),
        e,
      )
    ]
