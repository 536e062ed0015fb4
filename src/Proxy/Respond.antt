-- ===== src/Proxy/Respond.antt =====
-- The answers that internal/proxy/proxy.go writes itself, and the events of shadow.go.
use koshi_runtime.Base.{
  ℕ, Option, none, some, [], ◌∷◌, ◌++◌, String, str_eq, leb, if◌then◌else◌, ◌/◌,
}
use koshi_runtime.Base.Dict.{Dict}
use koshi_runtime.Base.Int.{ℤ, pos, negsuc}
use koshi_runtime.Budget.Window.{second}
use koshi_runtime.Emit.{Event, Attribute, text, number}
use koshi_runtime.Enforce.{Action, Decision}
use koshi_runtime.Identity.{WorkloadIdentity}
use koshi_runtime.Proxy.Effects.{Response, Body, json, bytes}

-- The headers of an answer in JSON.
abbrev headers : String → Dict String
headers decision = ("Content-Type", "application/json") ∷ ("X-GenOps-Decision", decision) ∷ []

unfoldable pub error_response : ℕ → String → String → String → String → String → Response
error_response status error category reason decision code = record {
  status = status;
  headers = headers decision;
  retry_after = none;
  body = json (
      ("error", text error)
      ∷ ("category", text category)
      ∷ ("reason", text reason)
      ∷ ("reason_code", text code)
      ∷ []);
}

abbrev enforcement_body : String → Decision → Body
enforcement_body error d = json (
    ("error", text error)
    ∷ ("category", text "enforcement")
    ∷ ("reason", text d.reason)
    ∷ ("reason_code", text d.reason_code)
    ∷ ("tokens_used", number d.tokens_used)
    ∷ ("tokens_limit", number d.tokens_limit)
    ∷ [])

-- The value of a Retry-After header, where the duration is positive.
unfoldable pub retry_seconds : ℤ → Option ℕ
retry_seconds (pos n) = if leb n 0 then none else some (n / second)
retry_seconds (negsuc n) = none

-- For the action `allow` nothing is written, which the server turns into an empty 200.
unfoldable pub enforcement_response : Decision → Response
unfolding retry_seconds
enforcement_response d = elim d.action [
  | Action.throttle ↦ record {
    status = 429;
    headers = headers "throttle";
    retry_after = retry_seconds d.retry_after;
    body = enforcement_body "rate_limited" d;
  }
  | Action.kill ↦ record {
    status = 503;
    headers = headers "kill";
    retry_after = none;
    body = enforcement_body "workload_killed" d;
  }
  | Action.allow ↦ record { status = 200; headers = []; retry_after = none; body = bytes [] }
]

abbrev pub action_name : Action → String
action_name Action.allow = "allow"
action_name Action.throttle = "throttle"
action_name Action.kill = "kill"

-- An attribute that is there only if its text is not empty.
abbrev optional : String → String → Dict Attribute
optional k v = if str_eq v "" then [] else (k, text v) ∷ []

unfoldable pub shadow_event : WorkloadIdentity → String → String → String → ℤ → Event
shadow_event ident decision code provider tokens = record {
  type = "listener_shadow";
  workload_id = ident.workload_id;
  attributes =
      ("mode", text "listener")
      ∷ ("decision_shadow", text decision)
      ∷ ("reason_code", text code)
      ∷ ("provider", text provider)
      ∷ ("model", text "")
      ∷ ("estimated_tokens", number tokens)
      ∷ ("actual_tokens", number (pos 0))
      ∷ (optional "namespace" ident.namespace
          ++ (optional "workload_kind" ident.workload_kind
              ++ optional "workload_name" ident.workload_name));
  severity = "info";
}
