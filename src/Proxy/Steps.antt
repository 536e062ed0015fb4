-- ===== src/Proxy/Steps.antt =====
-- The steps of handleWithPolicy of internal/proxy/proxy.go, from the guard to the upstream.
use koshi_runtime.Base.{
  Bool, true, false, not, ◌||◌, leb, [], ◌∷◌, Option, none, some, String, if◌then◌else◌,
}
use koshi_runtime.Base.Dict.{Dict}
use koshi_runtime.Base.Int.{ℤ, pos}
use koshi_runtime.Budget.Tracker.{Tracker, BudgetStatus, Reservation, reserve}
use koshi_runtime.Config.{Policy}
use koshi_runtime.Emit.{Event, Attribute, text, number, decimal, flag}
use koshi_runtime.Enforce.{Action, Decision, evaluate, increment, check_per_request_guard}
use koshi_runtime.Identity.{WorkloadIdentity}
use koshi_runtime.Provider.{Provider, name, default_max_tokens, detect_provider}
use koshi_runtime.Proxy.Effects.{
  Handler, State, Env, Request, Outcome, next, panicked, M, ◌>>=◌, ◌>>◌, answer, skip, unless,
  emit_event, count, count_tokens, is_listener, accounting_key, requests_total,
  enforcement_decisions_total, listener_decisions_total, tokens_used_total, listener_tokens_total,
}
use koshi_runtime.Proxy.Respond.{error_response, enforcement_response, action_name, shadow_event}
use koshi_runtime.Proxy.TokenCount.{extract_max_tokens, is_streaming_request}
use koshi_runtime.Proxy.Upstream.{proxy_with_enforcement}

-- The labels and the shadow event of a decision in listener mode.
unfoldable pub shadow : Handler → WorkloadIdentity → String → String → String → ℤ → M (Unit {0})
unfolding emit_event count
shadow h ident decision code provider tokens = do
  emit_event h (shadow_event ident decision code provider tokens)
  count (listener_decisions_total ident.namespace decision code)

abbrev pub warning : String → String → Dict Attribute → Event
warning type id attributes = record {
  type = type;
  workload_id = id;
  attributes = attributes;
  severity = "warn";
}

-- The counters of a request that is turned away.
unfoldable pub count_denied : String → String → M (Unit {0})
unfolding count
count_denied id policy = do
  count (requests_total id policy "deny")
  count (enforcement_decisions_total "deny" policy)

-- Step 5: the guard of a single request.
unfoldable pub guard_denied :
    Handler → WorkloadIdentity → Policy → String → ℤ → Decision → M (Unit {0})
unfolding shadow count_denied emit_event
guard_denied h ident pol provider tokens d =
    if is_listener h then shadow h ident "would_throttle" d.reason_code provider tokens else (do
      emit_event h (
          warning "guard_rejected" ident.workload_id
            (("reason", text d.reason) ∷ ("reason_code", text d.reason_code) ∷ []))
      count_denied ident.workload_id pol.id
      answer (enforcement_response d))

unfoldable pub guard_step : Handler → WorkloadIdentity → Policy → String → ℤ → M (Unit {0})
unfolding guard_denied
guard_step h ident pol provider tokens = elim (check_per_request_guard pol tokens) [
  | none ↦ skip
  | some d ↦ guard_denied h ident pol provider tokens d
]

-- Step 6: the reservation. A workload without budget is an error of the configuration, which a
-- listener only logs.
abbrev pub reserved : State → Option (Tracker × Reservation) → State × Outcome Reservation
reserved s none = (s, panicked none)
reserved s (some (t, r)) = (record s { tracker = t }, next r)

unfoldable pub reserve_tokens : Env → String → ℤ → M Reservation
reserve_tokens env key tokens s = reserved s (reserve key tokens env.readings s.tracker)

unfoldable pub check_reserved : Handler → Reservation → M (Unit {0})
unfolding count
check_reserved h r = elim r.err [
  | none ↦ skip
  | some _ ↦ if is_listener h then skip else (do
    count (enforcement_decisions_total "error" "none")
    answer (
        error_response 500 "budget_config_error" "system" "unregistered_workload" "error"
          "budget_config_error"))
]

abbrev pub shadow_decision : Action → String
shadow_decision Action.kill = "would_kill"
shadow_decision _ = "would_throttle"

-- The enforcement of a decision other than to allow.
unfoldable pub enforce_decision :
    Handler → WorkloadIdentity → Policy → String → ℤ → BudgetStatus → Decision → M (Unit {0})
unfolding shadow count_denied emit_event
enforce_decision h ident pol provider tokens bs d =
    if is_listener h
    then shadow h ident (shadow_decision d.action) d.reason_code provider tokens
    else (do
      emit_event h (
          warning "enforcement" ident.workload_id (
            ("action", text (action_name d.action))
            ∷ ("decision", text (action_name d.action))
            ∷ ("category", text "enforcement")
            ∷ ("tier", decimal (pos d.tier))
            ∷ ("reason", text d.reason)
            ∷ ("reason_code", text d.reason_code)
            ∷ ("tokens_used", number bs.window_tokens_used)
            ∷ ("tokens_limit", number bs.window_tokens_limit)
            ∷ ("burst_remaining", number bs.burst_remaining)
            ∷ ("reserved_tokens", number tokens)
            ∷ []))
      count_denied ident.workload_id pol.id
      answer (
          enforcement_response (record d {
            tokens_used = bs.window_tokens_used;
            tokens_limit = bs.window_tokens_limit;
          })))

abbrev pub is_allow : Action → Bool
is_allow Action.allow = true
is_allow _ = false

-- Steps 7 and 8: the fan-out, which always allows, and the decision.
unfoldable pub decide_step :
    Handler → WorkloadIdentity → Policy → String → ℤ → Reservation → M (Unit {0})
unfolding enforce_decision increment
decide_step h ident pol provider tokens r =
    let (fanout, fanout_allowed) = increment "" in
    if not r.allowed || not fanout_allowed
    then (let d = evaluate pol r.status fanout in
        unless (is_allow d.action) (enforce_decision h ident pol provider tokens r.status d))
    else skip

-- Step 9: what is emitted and counted for a request that goes on.
unfoldable pub allow_step :
    Handler → Env → WorkloadIdentity → Policy → String → ℤ → Bool → M (Unit {0})
unfolding shadow emit_event count count_tokens
allow_step h env ident pol provider tokens streaming =
    if is_listener h
    then (do
      shadow h ident "allow" "" provider tokens
      count_tokens env tokens (listener_tokens_total ident.namespace provider "reservation" tokens))
    else (do
      emit_event h (record {
        type = "request_allowed";
        workload_id = ident.workload_id;
        attributes =
            ("estimated_tokens", decimal tokens)
            ∷ ("streaming", flag streaming)
            ∷ ("phase", text "reservation")
            ∷ [];
        severity = "info";
      })
      count (requests_total ident.workload_id pol.id "allow")
      count_tokens env tokens (tokens_used_total ident.workload_id pol.id "reservation" tokens)
      count (enforcement_decisions_total "allow" pol.id))

abbrev is_zero : ℤ → Bool
is_zero (pos n) = leb n 0
is_zero _ = false

-- The estimate: what the body asks for, or the default of the provider.
unfoldable pub estimate : Env → Request → Provider → ℤ
estimate env r pt =
    let n = extract_max_tokens env.parse r.body in if is_zero n then default_max_tokens pt else n

unfoldable pub handle_with_policy :
    Handler → Env → Request → WorkloadIdentity → Policy → M (Unit {0})
unfolding guard_step reserve_tokens check_reserved decide_step allow_step estimate accounting_key
handle_with_policy h env r ident pol =
    let pt = detect_provider r.host in
    let tokens = estimate env r pt in
    let streaming = is_streaming_request env.parse r.body in
    let key = accounting_key h ident.workload_id in
    do
      guard_step h ident pol (name pt) tokens
      res ← reserve_tokens env key tokens
      check_reserved h res
      decide_step h ident pol (name pt) tokens res
      allow_step h env ident pol (name pt) tokens streaming
      proxy_with_enforcement h env r (record {
        ident = ident;
        policy_id = pol.id;
        provider = pt;
        reserved = tokens;
        streaming = streaming;
        key = key;
      })
