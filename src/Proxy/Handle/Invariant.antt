-- ===== src/Proxy/Handle/Invariant.antt =====
-- The validity of the windows of internal/budget through ServeHTTP of internal/proxy/proxy.go.
use koshi_runtime.Base.{String, inl, inr, Bool-cases}
use koshi_runtime.Base.Int.{ℤ}
use koshi_runtime.Budget.Tracker.Frame.{AllValid, reserve_runs, record_usage_runs}
use koshi_runtime.Proxy.Effects.{
  Handler, State, Env, Request, Metric, emit_event, count, count_tokens,
}
use koshi_runtime.Proxy.Steps.{reserve_tokens}
use koshi_runtime.Proxy.Upstream.{record_delta}
use koshi_runtime.Proxy.Handle.{serve_http}
use koshi_runtime.Proxy.Handle.Flow.{serve_http_keeps}
use koshi_runtime.Proxy.Handle.Keeps.{IsKept}

-- Every registered window is valid.
abbrev pub HasValidBudgets : State → Type 0
HasValidBudgets s = AllValid s.tracker

reserve_valid :
    (env : Env) (key : String) (n : ℤ) (s : State)
    → HasValidBudgets s
    → HasValidBudgets (reserve_tokens env key n s).0
unfolding reserve_tokens
reserve_valid env key n s v =
    let (t, res, e, v', _) = reserve_runs key n env.readings s.tracker v in rw e v'

record_valid :
    (env : Env) (key : String) (d : ℤ) (s : State)
    → HasValidBudgets s
    → HasValidBudgets (record_delta env key d s).0
unfolding record_delta
record_valid env key d s v =
    let (t, e, v', _) = record_usage_runs key d env.record_add env.record_total s.tracker v in
    rw e v'

count_tokens_valid :
    (env : Env) (n : ℤ) (m : Metric) (s : State)
    → HasValidBudgets s
    → HasValidBudgets (count_tokens env n m s).0
unfolding count_tokens
count_tokens_valid env n m s v = elim (Bool-cases (env.accepts n)) [
  | inl e ↦ rw e v
  | inr e ↦ rw e v
]

budgets_IsKept : (h : Handler) → IsKept h HasValidBudgets
unfolding emit_event count
budgets_IsKept h = record {
  quiet = record {
    at_emit = λ ev. record { after = λ s v. v };
    at_count = λ m. record { after = λ s v. v };
    at_count_tokens = λ env n m. record { after = count_tokens_valid env n m };
  };
  at_reserve = λ env key n. record { after = reserve_valid env key n };
  at_record = λ env key d. record { after = record_valid env key d };
  at_degrade = λ s v. v;
}

-- Whatever the handler, the request, the upstream and the clock are, ServeHTTP keeps every
-- window of the tracker valid, also when it panics and recovers.
pub serve_http-HasValidBudgets :
    (h : Handler) (env : Env) (r : Request) (s : State)
    → HasValidBudgets s
    → HasValidBudgets (serve_http h env r s).0
serve_http-HasValidBudgets h = serve_http_keeps h (budgets_IsKept h)
