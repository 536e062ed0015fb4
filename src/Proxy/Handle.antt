-- ===== src/Proxy/Handle.antt =====
-- NewHandler and ServeHTTP of internal/proxy/proxy.go.
pub mod Listener
pub mod Denial
pub mod Degrade
pub mod Keeps
pub mod Flow
pub mod Invariant
pub mod Stamped
pub mod Leads
pub mod Once
pub mod Billing
mod Tests
use koshi_runtime.Base.{
  ℕ, Bool, true, false, not, ◌&&◌, ◌||◌, leb, List, [], ◌∷◌, Option, none, some, String, str_eq,
  if◌then◌else◌,
}
use koshi_runtime.Base.Dict.{Dict}
use koshi_runtime.Base.Int.{ℤ, pos}
use koshi_runtime.Budget.Tracker.{Tracker, BudgetStatus, Reservation, reserve}
use koshi_runtime.Config.{Policy}
use koshi_runtime.Emit.{Event, Attribute, text, number, decimal, flag}
use koshi_runtime.Enforce.{Action, Decision, evaluate, increment, check_per_request_guard}
use koshi_runtime.Identity.{WorkloadIdentity, no_identity, Resolver, resolve}
use koshi_runtime.Policy.{Engine, lookup_policy}
use koshi_runtime.Provider.{Provider, name, default_max_tokens, detect_provider}
use koshi_runtime.Proxy.Effects.{
  Handler, State, Env, Request, Response, both, Outcome, next, respond, panicked, M, ◌>>=◌, ◌>>◌,
  bind_outcome, return, answer, skip, unless, emit_event, count, count_tokens, is_listener,
  accounting_key, requests_total, enforcement_decisions_total, listener_decisions_total,
  tokens_used_total, listener_tokens_total,
}
use koshi_runtime.Proxy.Respond.{error_response, enforcement_response, action_name, shadow_event}
use koshi_runtime.Proxy.TokenCount.{extract_max_tokens, is_streaming_request}
use koshi_runtime.Proxy.Steps.{shadow, warning, count_denied, handle_with_policy}
use koshi_runtime.Proxy.Upstream.{Call, proxy_direct, proxy_with_enforcement}

-- HandlerConfig; the response header timeout belongs to the transport, which is not modelled.
unfoldable pub new_handler :
    Resolver → Engine → Dict String → Bool → String → String → String → String → Handler
new_handler resolver engine upstreams sse version spec mode key = record {
  resolver = resolver;
  policy_engine = engine;
  upstreams = upstreams;
  sse_extraction = sse;
  version = version;
  genops_spec_version = if str_eq spec "" then "0.1.0" else spec;
  mode = if str_eq mode "" then "enforcement" else mode;
  listener_accounting_key = key;
}

-- Step 2, where there is no default policy.
unfoldable pub reject_identity : Handler → Env → Request → M (Unit {0})
unfolding shadow emit_event count
reject_identity h env r =
    if is_listener h
    then (do
      shadow h no_identity "would_reject" "identity_missing" "" (pos 0)
      proxy_direct h env r)
    else (do
      emit_event h (
          warning "identity_rejected" "" (
            ("error", text "missing workload identity")
            ∷ ("reason_code", text "identity_missing")
            ∷ []))
      count (enforcement_decisions_total "deny" "none")
      answer (
          error_response 403 "identity_required" "enforcement" "missing_workload_identity" "reject"
            "identity_missing"))

-- Step 3, where no policy is found.
unfoldable pub reject_policy : Handler → Env → Request → WorkloadIdentity → M (Unit {0})
unfolding shadow emit_event count_denied
reject_policy h env r ident =
    if is_listener h
    then (do shadow h ident "would_reject" "policy_not_found" "" (pos 0); proxy_direct h env r)
    else (do
      emit_event h (
          warning "policy_rejected" ident.workload_id
            (("reason_code", text "policy_not_found") ∷ []))
      count_denied ident.workload_id "none"
      answer (
          error_response 403 "policy_not_found" "enforcement" "no_matching_policy" "reject"
            "policy_not_found"))

abbrev default_identity : WorkloadIdentity
default_identity = record no_identity { workload_id = "_default" }

unfoldable pub dispatch : Handler → Env → Request → Option WorkloadIdentity → M (Unit {0})
unfolding reject_identity reject_policy
dispatch h env r none = elim (lookup_policy h.policy_engine no_identity) [
  | none ↦ reject_identity h env r
  | some pol ↦ handle_with_policy h env r default_identity pol
]
dispatch h env r (some ident) = elim (lookup_policy h.policy_engine ident) [
  | none ↦ reject_policy h env r ident
  | some pol ↦ handle_with_policy h env r ident pol
]

unfoldable pub pass_degraded : Handler → Env → Request → M (Unit {0})
unfolding emit_event proxy_direct
pass_degraded h env r = do
  emit_event h (record {
    type = "degraded_passthrough";
    workload_id = "";
    attributes = [];
    severity = "warn";
  })
  proxy_direct h env r

-- ServeHTTP below its recovery.
unfoldable pub serve_flow : Handler → Env → Request → M (Unit {0})
unfolding dispatch pass_degraded
serve_flow h env r s =
    if s.degraded
    then pass_degraded h env r s
    else dispatch h env r (resolve h.resolver (record { header = r.header })) s

-- The recovery of a panic: degraded from then on.
unfoldable pub recover : Handler → Env → State → State
unfolding emit_event
recover h env s =
    (emit_event h
      (record {
        type = "degraded_panic";
        workload_id = "";
        attributes =
            ("panic", text env.panic_text)
            ∷ ("stack", text env.stack)
            ∷ ("state", text "degraded")
            ∷ ("category", text "system")
            ∷ [];
        severity = "error";
      })
      (record s { degraded = true })).0

abbrev pub degraded_response : Response
degraded_response =
    error_response 500 "service_degraded" "system" "internal_protection_triggered" "degraded"
      "system_degraded"

-- A 500 is written if nothing was sent yet, and else its body behind what was sent; whether the
-- length that the upstream declared leaves room for that is not modelled.
unfoldable pub finish : Handler → Env → State × Outcome (Unit {0}) → State × Option Response
unfolding recover
finish h env (s, next _) = (s, none)
finish h env (s, respond r) = (s, some r)
finish h env (s, panicked none) = (recover h env s, some degraded_response)
finish h env (s, panicked (some r)) =
    (recover h env s, some (record r { body = both r.body degraded_response.body }))

-- ServeHTTP
unfoldable pub serve_http : Handler → Env → Request → State → State × Option Response
unfolding finish serve_flow
serve_http h env r s = finish h env (serve_flow h env r s)
