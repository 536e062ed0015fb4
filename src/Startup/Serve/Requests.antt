-- ===== src/Startup/Serve/Requests.antt =====
-- Requests one after the other on a process that cmd/koshi/main.go has started, through ServeHTTP of
-- internal/proxy/proxy.go.
use koshi_runtime.Base.{
  ℕ, ◌≡◌, refl, ◌∙◌, false, inl, inr, Bool-cases, Option-cases, List, [], ◌∷◌, none, some, String,
  str_eq, get_elem?,
}
use koshi_runtime.Base.Dict.{lookup, insert, lookup-insert}
use koshi_runtime.Base.Int.{ℤ}
use koshi_runtime.Base.Result.{ok}
use koshi_runtime.Budget.Tracker.{
  Tracker, WorkloadState, Readings, Reservation, reserve_window, record_window, reserve_state,
  reserve, record_state, record_usage,
}
use koshi_runtime.Budget.Tracker.Frame.{AllValid, reserve_window_runs, insert-AllValid}
use koshi_runtime.Config.{Config, Workload}
use koshi_runtime.Config.Defaults.{HasSoundDefault}
use koshi_runtime.Proxy.Effects.{
  Handler, State, Env, Request, Metric, emit_event, count, count_tokens,
}
use koshi_runtime.Proxy.Steps.{reserve_tokens}
use koshi_runtime.Proxy.Upstream.{record_delta}
use koshi_runtime.Proxy.Handle.{serve_http}
use koshi_runtime.Proxy.Handle.Flow.{serve_http_keeps}
use koshi_runtime.Proxy.Handle.Invariant.{HasValidBudgets, serve_http-HasValidBudgets}
use koshi_runtime.Proxy.Handle.Keeps.{IsKept}
use koshi_runtime.Startup.Load.{Process, load_config}
use koshi_runtime.Startup.Wire.{Wiring, running, handler_of, state_of, wire}
use koshi_runtime.Startup.Wire.Registers.{IsRegistered}
use koshi_runtime.Startup.Wire.Fits.{ConfigFits}
use koshi_runtime.Startup.Wire.Starts.{load_config-wire}

-- A budget is kept for this key.
abbrev KeepsKey : String → State → Type 0
KeepsKey k s = IsRegistered k s.tracker

insert-IsRegistered :
    (id k : String) (ws : WorkloadState) (t : Tracker)
    → IsRegistered k t
    → IsRegistered k (insert id ws t)
insert-IsRegistered id k ws t (x, e) = elim (Bool-cases (str_eq id k)) [
  | inl m ↦ (ws, lookup-insert id k ws t ∙ rw m refl)
  | inr m ↦ (x, lookup-insert id k ws t ∙ rw m e)
]

reserve_keeps :
    (k : String) (env : Env) (key : String) (n : ℤ) (s : State)
    → IsRegistered k s.tracker
    → IsRegistered k (reserve_tokens env key n s).0.tracker
unfolding reserve_tokens reserve reserve_state
reserve_keeps k env key n s r = elim (Option-cases (lookup key s.tracker)) [
  | inl e ↦ rw (reserve_tokens, reserve, e) r
  | inr (ws, e) ↦ elim (Option-cases (reserve_window ws.limit_tokens n env.readings ws.window)) [
    | inl f ↦ rw (reserve_tokens, reserve, e, reserve_state, f) r
    | inr ((w, st, b), f) ↦
        rw (reserve_tokens, reserve, e, reserve_state, f)
          (insert-IsRegistered key k (record ws { window = w }) s.tracker r)
  ]
]

record_keeps :
    (k : String) (env : Env) (key : String) (d : ℤ) (s : State)
    → IsRegistered k s.tracker
    → IsRegistered k (record_delta env key d s).0.tracker
unfolding record_delta record_usage record_state
record_keeps k env key d s r = elim (Option-cases (lookup key s.tracker)) [
  | inl e ↦ rw (record_delta, record_usage, e) r
  | inr (ws, e) ↦
      elim (Option-cases
        (record_window ws.limit_tokens d env.record_add env.record_total ws.window)) [
          | inl f ↦ rw (record_delta, record_usage, e, record_state, f) r
          | inr (w, f) ↦
              rw (record_delta, record_usage, e, record_state, f)
                (insert-IsRegistered key k (record ws { window = w }) s.tracker r)
        ]
]

count_tokens_keeps :
    (k : String) (env : Env) (n : ℤ) (m : Metric) (s : State)
    → IsRegistered k s.tracker
    → IsRegistered k (count_tokens env n m s).0.tracker
unfolding count_tokens
count_tokens_keeps k env n m s r = elim (Bool-cases (env.accepts n)) [
  | inl e ↦ rw e r
  | inr e ↦ rw e r
]

registered_kept : (h : Handler) (k : String) → IsKept h (KeepsKey k)
unfolding emit_event count
registered_kept h k = record {
  quiet = record {
    at_emit = λ ev. record { after = λ s r. r };
    at_count = λ m. record { after = λ s r. r };
    at_count_tokens = λ env n m. record { after = count_tokens_keeps k env n m };
  };
  at_reserve = λ env key n. record { after = reserve_keeps k env key n };
  at_record = λ env key d. record { after = record_keeps k env key d };
  at_degrade = λ s r. r;
}

-- The state behind some requests, each with its upstream and its clock.
abbrev pub after_requests : Handler → List (Env × Request) → State → State
after_requests h [] s = s
after_requests h ((env, r) ∷ rest) s = after_requests h rest (serve_http h env r s).0

requests_keep :
    (h : Handler) (requests : List (Env × Request)) (k : String) (s : State)
    → HasValidBudgets s
    → IsRegistered k s.tracker
    → HasValidBudgets (after_requests h requests s)
      × IsRegistered k (after_requests h requests s).tracker
requests_keep h [] k s v r = (v, r)
requests_keep h ((env, q) ∷ rest) k s v r =
    requests_keep h rest k (serve_http h env q s).0 (serve_http-HasValidBudgets h env q s v)
      (serve_http_keeps h (registered_kept h k) env q s r)

-- Reserve on a workload that is registered.
reserve_registered :
    (k : String) (n : ℤ) (r : Readings) (t : Tracker)
    → AllValid t
    → IsRegistered k t
    → (t' : Tracker) × (res : Reservation) × (reserve k n r t ≡ some (t', res))
      × (res.err ≡ none)
      × AllValid t'
unfolding reserve reserve_state
reserve_registered k n r t all (ws, e) =
    let (w, st, b, run, v) = reserve_window_runs ws.limit_tokens n r ws.window (all k ws e) in
    (
      insert k (record ws { window = w }) t,
      record { status = st; allowed = b; err = none },
      rw (e, reserve_state, run) refl,
      refl,
      insert-AllValid k (record ws { window = w }) t all v,
    )

-- Once a configuration is loaded that is not for the listener, whose default policy, if any, is
-- sound, and none of whose windows is longer than `max_buckets` seconds, the wiring runs;
-- whatever requests have then come, with whatever upstreams and clocks, Reserve on a workload of
-- the configuration returns without an error, and keeps every window valid.
pub load_config-reserve :
    (p : Process) (c : Config) (now : String → ℕ) (i : ℕ) (v : Workload)
    (requests : List (Env × Request)) (n : ℤ) (r : Readings)
    → load_config p ≡ ok c
    → str_eq c.mode "listener" ≡ false
    → HasSoundDefault c.default_policy
    → ConfigFits c
    → get_elem? c.workloads i ≡ some v
    → (w : Wiring) × (t' : Tracker) × (res : Reservation) × (wire p c now ≡ running w)
      × (reserve v.id n r (after_requests (handler_of c w) requests (state_of w)).tracker
          ≡ some (t', res))
      × (res.err ≡ none)
      × AllValid t'
load_config-reserve p c now i v requests n r l m d fits e =
    let (w, run, all, registered, _) = load_config-wire p c now i v l m d fits e in
    let (all', kept) = requests_keep (handler_of c w) requests v.id (state_of w) all registered in
    let (t', res, reserves, fine, valid) = reserve_registered v.id n r _ all' kept in
    (w, t', res, run, reserves, fine, valid)
