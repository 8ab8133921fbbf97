-- ===== src/Auth/Moltbook.antt =====
-- MoltBook's identity check (meritmolt/auth/moltbook.py).
pub mod Behaviour
use Prim.Native.String.{◌++◌ as append}
use meritmolt.Prelude.{
  ℕ, String, Bool, true, false, Option, none, some, ltb, leb, ◌==◌, ◌&&◌, str_eq, if◌then◌else◌,
}
use meritmolt.Errors.{Failure, http_exception, unhandled, Result, ok, err}
use meritmolt.Config.{Settings}
use meritmolt.Json.{Json, text, number, truthy, ◌or◌, get?, ◌>>=◌}
use meritmolt.Retrying.{Attempt, returned, raised, Retrying}

pub record MbAgentInfo : Type 0 where
  pub agent_id : String
  pub name : String

-- The exceptions of an attempt: httpx.TransportError, httpx.HTTPStatusError with its status, FastAPI's
-- HTTPException, and all others.
pub data Exception : Type 0 where
  transport_error : Exception
  status_error : ℕ → Exception
  http_error : Failure → Exception
  other_error : Exception

unfoldable pub should_retry : Exception → Bool
should_retry transport_error = true
should_retry (status_error code) = leb 500 code
should_retry (http_error f) = false
should_retry other_error = false

-- What the POST comes to: a TransportError, or a response with its status and its body, which is
-- `none` where `resp.json()` raises.
pub data Response : Type 0 where
  unreachable : Response
  response : ℕ → Option Json → Response

-- `str(value)`; `render` is what Python makes of a value that is not a text.
unfoldable pub to_str : (Json → String) → Json → String
to_str render (text s) = s
to_str render v = render v

abbrev raise_http : ℕ → String → Attempt Exception MbAgentInfo
raise_http status detail = raised (http_error (http_exception status detail))

-- `data.get(a) or data.get(b) or data.get(c) or ""`; `none` is AttributeError.
unfoldable pub first_of_three : String → String → String → Json → Option Json
first_of_three a b c body = do
  x ← get? a body
  y ← get? b body
  z ← get? c body
  some (x or (y or (z or text "")))

-- The end of verify_identity: from the body to the agent.
read_agent : (Json → String) → Option (Json × Json) → Attempt Exception MbAgentInfo
read_agent render none = raised other_error
read_agent render (some (agent_id, name)) =
    if truthy agent_id
    then returned (record { agent_id = to_str render agent_id; name = to_str render name })
    else raise_http 502 "MoltBook missing agent_id"

-- `resp.json()`, and the two texts out of it.
read_body : Option Json → Option (Json × Json)
read_body body = do
  json ← body
  agent_id ← first_of_three "agent_id" "id" "agentId" json
  name ← first_of_three "name" "username" "display_name" json
  some (agent_id, name)

read_response : (Json → String) → Response → Attempt Exception MbAgentInfo
unfolding read_body read_agent
read_response render unreachable = raise_http 502 "MoltBook unreachable"
read_response render (response status body) =
    if status == 401
    then raise_http 401 "Invalid or expired MoltBook token"
    else if leb 500 status
    then raise_http 502 (append "MoltBook error: " (render (number status)))
    else if leb 200 status && ltb status 300
    then read_agent render (read_body body)
    else raised (status_error status)

-- One attempt: the body of verify_identity. The outcome of the POST stands in for the service.
unfoldable pub verify_once : (Json → String) → Settings → Response → Attempt Exception MbAgentInfo
unfolding read_response
verify_once render settings r = elim settings.mm_moltbook_app_key [
  | none ↦ raise_http 503 "MoltBook not configured (MM_MOLTBOOK_APP_KEY missing)"
  | some key ↦
      if str_eq key ""
      then raise_http 503 "MoltBook not configured (MM_MOLTBOOK_APP_KEY missing)"
      else read_response render r
]

-- An exception as it leaves the handler: what is not an HTTPException ends in a 500.
unfoldable pub to_result {ℓ} : {A : Type ℓ} → Attempt Exception A → Result A
to_result (returned a) = ok a
to_result (raised (http_error f)) = err f
to_result (raised transport_error) = err unhandled
to_result (raised (status_error code)) = err unhandled
to_result (raised other_error) = err unhandled

-- verify_identity with its decorator: three attempts at most, each with its own outcome.
unfoldable pub verify_identity :
    Retrying Exception MbAgentInfo
    → (Json → String)
    → Settings
    → (ℕ → Response)
    → Result MbAgentInfo
verify_identity tenacity render settings responses =
    to_result (tenacity.run should_retry 3 (λ k. verify_once render settings (responses k)))
