-- ===== src/Proxy/Handle/Billing/Tests.antt =====
-- A request that asks for 50 tokens and uses 42, through internal/proxy/proxy.go, and the events of
-- serving it.
use koshi_runtime.Base.{◌≡◌, ◌≢◌, refl, true, false, [], ◌∷◌, ◌++◌, List, some, none, eq_iff, arith}
use koshi_runtime.Base.Dict.{lookup}
use koshi_runtime.Base.Int.{pos, ◌+ℤ◌, ◌-ℤ◌, wrap64, add64}
use koshi_runtime.Budget.Tracker.{Tracker, WorkloadState, BudgetStatus, reserve, reserve_window}
use koshi_runtime.Budget.Tracker.Reserve.{still, IsReady}
use koshi_runtime.Budget.Tracker.Reconcile.{IsSettling}
use koshi_runtime.Budget.Window.{Window, add, total, advance, advance_to}
use koshi_runtime.Budget.Window.Sums.{mass}
use koshi_runtime.Emit.{Event}
use koshi_runtime.Json.{Json, obj, field, end, int, codes, decode_fields, pointer}
use koshi_runtime.Provider.Usage.{UsageData, parse_usage}
use koshi_runtime.Proxy.Effects.{
  State, Env, Request, reply, no_reply, respond, sent, cut_off, requests_total, tokens_used_total,
  enforcement_decisions_total,
}
use koshi_runtime.Proxy.Upstream.{Call, passed_on, resolve_upstream, respond_with}
use koshi_runtime.Proxy.Upstream.Refund.{reserve-respond_with}
use koshi_runtime.Budget.Tracker.Settled.{granted, with_window}
use koshi_runtime.Proxy.Respond.{error_response}
use koshi_runtime.Identity.{resolve}
use koshi_runtime.Policy.{lookup_policy}
use koshi_runtime.Enforce.{check_per_request_guard}
use koshi_runtime.Proxy.TokenCount.{is_streaming_request, extract_max_tokens}
use koshi_runtime.Provider.{Provider, detect_provider}
use koshi_runtime.Proxy.Steps.{estimate}
use koshi_runtime.Proxy.Handle.{serve_http}
use koshi_runtime.Proxy.Handle.Tests.{
  agent, charged, now, state, tracker, charged-IsReady, ident, policy, handler, url, env,
}
use koshi_runtime.Proxy.Handle.Stamped.{AllStamped, serve_http-AllStamped}
use koshi_runtime.Proxy.Handle.Billing.{IsAnswered, tokens_of, serve_http-bills}

-- The body of the request and that of the answer.
abbrev document : Json
document = obj (
    field (codes "max_tokens") (int (pos 50)) (
      field (codes "usage")
        (obj (
          field (codes "prompt_tokens") (int (pos 30)) (
            field (codes "completion_tokens") (int (pos 12))
              (field (codes "total_tokens") (int (pos 42)) end))))
        end))

abbrev asking : Env
asking = record env {
  parse = λ _. some document;
  upstream = λ _ _. reply 200 (codes "application/json") (codes "{}" ∷ []) none;
}

abbrev asked : Request
asked = record { header = λ _. agent; host = codes "api.openai.com"; url = url; body = codes "{}" }

abbrev used : UsageData
used = record { input_tokens = pos 30; output_tokens = pos 12; total_tokens = pos 42 }

answered :
    IsAnswered
      (handler "enforcement")
      asking
      asked
      ident
      policy
      now
      url
      200
      (codes "application/json")
      (codes "{}" ∷ [])
      used
unfolding resolve lookup_policy check_per_request_guard is_streaming_request decode_fields
    resolve_upstream detect_provider lookup parse_usage pointer estimate extract_max_tokens
answered = record {
  enforces = refl;
  identified = refl;
  governed = refl;
  unguarded = refl;
  whole = refl;
  routed = refl;
  answered = refl;
  fine = refl;
  no_stream = refl;
  reports = refl;
  accepts_estimate = refl;
  accepts_usage = refl;
  timed = (refl, refl, refl);
}

serve_http-AllStamped_example :
    (added : List Event) × ((serve_http (handler "enforcement") asking asked state).0.events
      ≡ [] ++ added)
    × AllStamped "0.1.0" added
serve_http-AllStamped_example = serve_http-AllStamped (handler "enforcement") asking asked state

abbrev budget : WorkloadState
budget = record { window = charged; window_seconds = pos 3; limit_tokens = pos 100 }

abbrev reserved : Window
reserved = record charged { buckets = pos 10 ∷ pos 80 ∷ pos 0 ∷ []; total_tokens = pos 90 }

abbrev status : BudgetStatus
status = record {
  window_tokens_used = pos 90;
  window_tokens_limit = pos 100;
  burst_remaining = pos 20;
}

estimated : tokens_of asking asked ≡ pos 50
unfolding estimate extract_max_tokens decode_fields detect_provider
estimated = refl

ready : IsReady (pos 100) (pos 50) now charged
unfolding advance advance_to ◌+ℤ◌ mass
ready = record {
  valid = charged-IsReady.valid;
  fits = omega arith;
  before = omega arith;
  after = omega arith;
  limit_ok = (omega arith, omega arith);
  burst_ok = (omega arith, omega arith);
}

grants : reserve_window (pos 100) (pos 50) (still now) charged ≡ some (reserved, status, true)
unfolding reserve_window add64 wrap64 ◌+ℤ◌ add advance advance_to total
grants = refl

settling : IsSettling (pos 100) (pos 42 -ℤ pos 50) now reserved
unfolding advance advance_to ◌+ℤ◌ ◌-ℤ◌ mass
settling = record {
  valid = record { positive = omega arith; sized = refl; head_in = omega arith };
  fits = omega arith;
  after = omega arith;
  limit_ok = (omega arith, omega arith);
  burst_ok = (omega arith, omega arith);
}

other-agent : "other" ≢ agent
other-agent = λ e. let x = (eq_iff "other" agent).1 e in cc

serve_http-bills_example :
    (s' : State) × (w'' : Window) × (serve_http (handler "enforcement") asking asked state
      ≡ (s', some (passed_on 200 (codes "{}" ∷ []))))
    × (lookup agent s'.tracker ≡ some (record budget { window = w'' }))
    × (w''.total_tokens ≡ (advance now charged).total_tokens +ℤ pos 42)
    × (lookup "other" s'.tracker ≡ lookup "other" state.tracker)
    × (s'.degraded ≡ false)
    × (s'.metrics
        ≡ requests_total agent "strict" "allow"
          ∷ tokens_used_total agent "strict" "reservation" (tokens_of asking asked)
          ∷ enforcement_decisions_total "allow" "strict"
          ∷ tokens_used_total agent "strict" "actual" (pos 42)
          ∷ [])
unfolding estimate extract_max_tokens decode_fields detect_provider lookup
serve_http-bills_example =
    serve_http-bills (handler "enforcement") asking asked ident policy now url 200
      (codes "application/json") (codes "{}" ∷ []) used answered state budget reserved status
      "other" refl refl ready grants settling other-agent

-- The same 50 tokens, where the upstream fails.
abbrev call : Call
call = record {
  ident = ident;
  policy_id = "strict";
  provider = Provider.open_ai;
  reserved = pos 50;
  streaming = false;
  key = agent;
}

giving_back : IsSettling (pos 100) (pos 0 -ℤ pos 50) now reserved
unfolding advance advance_to ◌+ℤ◌ ◌-ℤ◌ mass
giving_back = record {
  valid = settling.valid;
  fits = omega arith;
  after = omega arith;
  limit_ok = (omega arith, omega arith);
  burst_ok = (omega arith, omega arith);
}

reserve-respond_with_example :
    let h = handler "enforcement" in
    (t1 : Tracker) × (reserve agent (pos 50) (still now) tracker ≡ some (t1, granted status))
    × ((s' : State) × (w'' : Window) × (respond_with h asking call
            (reply 503 [] [] (some "reset"))
            (record state { tracker = t1 })
          ≡ sent (passed_on 503 []) (cut_off (some "reset")) s')
        × (lookup agent s'.tracker ≡ some (with_window budget w''))
        × (w''.total_tokens ≡ (advance now charged).total_tokens)
        × (lookup "other" s'.tracker ≡ lookup "other" tracker)
        × (s'.degraded ≡ false))
    × ((s' : State) × (respond_with h asking call
            (no_reply "refused")
            (record state { tracker = t1 })
          ≡ (
            s',
            respond (
                error_response 504 "upstream_timeout" "system" "upstream_did_not_respond" "reject"
                  "upstream_timeout"),
          ))
        × (s'.tracker ≡ t1)
        × (s'.degraded ≡ false))
unfolding lookup
reserve-respond_with_example =
    reserve-respond_with (handler "enforcement") asking call 503 [] [] (some "reset") "refused"
      state now budget reserved status "other" refl ready grants giving_back refl refl refl
      (omega arith) other-agent
