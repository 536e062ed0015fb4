-- ===== src/Proxy/Handle/Billing.antt =====
-- A request that internal/proxy/proxy.go serves in enforcement mode, from the reservation of
-- internal/budget/tracker.go to the reconciliation with the usage that the upstream reports.
mod Tests
use koshi_runtime.Base.{
  ℕ, ◌≡◌, ◌≢◌, refl, ap, ◌∙◌, true, false, Bool, Bool-cases, inl, inr, List, [], ◌∷◌, ◌++◌, some,
  none, String, leb, if◌then◌else◌,
}
use mathlib.Core.List.{append_assoc}
use koshi_runtime.Base.Dict.{lookup, insert}
use koshi_runtime.Base.Int.{ℤ, ◌+ℤ◌, ◌-ℤ◌, sub64}
use koshi_runtime.Base.Result.{ok}
use koshi_runtime.Budget.Window.{Window, advance}
use koshi_runtime.Budget.Tracker.{
  Tracker, WorkloadState, BudgetStatus, reserve, reserve_window, record_usage,
}
use koshi_runtime.Budget.Tracker.Settled.{granted, with_window, reserve-granted, record_settles}
use koshi_runtime.Config.{Policy}
use koshi_runtime.Enforce.{increment, check_per_request_guard}
use koshi_runtime.Identity.{WorkloadIdentity, resolve}
use koshi_runtime.Json.{Text, codes}
use koshi_runtime.Policy.{lookup_policy}
use koshi_runtime.Provider.{name, detect_provider, is_infix}
use koshi_runtime.Provider.Usage.{UsageData, parse_usage}
use koshi_runtime.Proxy.Effects.{
  Handler, State, Env, Metric, Url, Request, reply, Outcome, respond, next, is_listener,
  accounting_key, emit_event, count, count_tokens, requests_total, enforcement_decisions_total,
  tokens_used_total,
}
use koshi_runtime.Proxy.Steps.{
  guard_step, reserve_tokens, check_reserved, decide_step, allow_step, estimate, handle_with_policy,
}
use koshi_runtime.Proxy.TokenCount.{is_streaming_request}
use koshi_runtime.Proxy.Upstream.{
  Call, is_zero, is_sse_response, joined, passed_on, resolve_upstream, record_delta, reconcile,
  on_usage, on_body, pass_body, respond_with, proxy_to, proxy_with_enforcement,
}
use koshi_runtime.Proxy.Handle.{dispatch, pass_degraded, serve_flow, finish, serve_http}
use koshi_runtime.Budget.Tracker.Reserve.{still, IsReady}
use koshi_runtime.Budget.Tracker.Reconcile.{IsSettling}

-- Record at equal arguments.
record_at :
    (d : ℤ) (t : ℕ) {key key' : String} {tr tr' tr'' : Tracker} {at_add at_total : ℕ}
    → key' ≡ key
    → at_add ≡ t
    → at_total ≡ t
    → tr' ≡ tr
    → record_usage key d t t tr ≡ some tr''
    → record_usage key' d at_add at_total tr' ≡ some tr''
record_at d t k e f g run = rw (k, e, f, g) run

untaken : (x y : State × Outcome (Unit {0})) (b : Bool) → b ≡ false → (if b then x else y) ≡ y
untaken x y b e = rw e refl

three :
    (ms : List Metric) (a b c : Metric)
    → ((ms ++ (a ∷ [])) ++ (b ∷ [])) ++ (c ∷ []) ≡ ms ++ (a ∷ b ∷ c ∷ [])
three ms a b c =
    append_assoc (ms ++ (a ∷ [])) (b ∷ []) (c ∷ []) ∙ append_assoc ms (a ∷ []) (b ∷ c ∷ [])

-- The estimate of a request.
abbrev pub tokens_of : Env → Request → ℤ
tokens_of env r = estimate env r (detect_provider r.host)

-- A request in enforcement mode of a workload that is known, which the guard lets pass and which
-- asks for no stream, with every reading of the clock at `t`; the upstream answers it with a whole
-- body, below 500 and no stream of events, that reports its usage; and the counter accepts both
-- numbers of tokens.
pub record IsAnswered (h : Handler) (env : Env) (r : Request) (i : WorkloadIdentity) (pol : Policy)
    (t : ℕ) (u : Url) (status : ℕ) (ct : Text) (pieces : List Text) (usage : UsageData)
    : Type 0 where
  pub enforces : is_listener h ≡ false
  pub identified : resolve h.resolver (record { header = r.header }) ≡ some i
  pub governed : lookup_policy h.policy_engine i ≡ some pol
  pub unguarded : check_per_request_guard pol (tokens_of env r) ≡ none
  pub whole : is_streaming_request env.parse r.body ≡ false
  pub routed : resolve_upstream h env r ≡ some u
  pub answered : env.upstream u r.body ≡ reply status ct pieces none
  pub fine : leb 500 status ≡ false
  pub no_stream : is_sse_response ct ≡ false
  pub reports :
      parse_usage env.parse (detect_provider r.host) (joined pieces) ≡ some (ok (some usage))
  pub accepts_estimate : env.accepts (tokens_of env r) ≡ true
  pub accepts_usage : env.accepts usage.total_tokens ≡ true
  pub timed : (env.readings ≡ still t) × (env.record_add ≡ t) × (env.record_total ≡ t)

module _ (h : Handler) (env : Env) (r : Request) (i : WorkloadIdentity) (pol : Policy) (t : ℕ)
    (u : Url) (status : ℕ) (ct : Text) (pieces : List Text) (usage : UsageData)
    (a : IsAnswered h env r i pol t u status ct pieces usage) where
  -- What is known of the request when it goes to the upstream.
  abbrev call : Call
  call = record {
    ident = i;
    policy_id = pol.id;
    provider = detect_provider r.host;
    reserved = tokens_of env r;
    streaming = is_streaming_request env.parse r.body;
    key = accounting_key h i.workload_id;
  }

  own_key : accounting_key h i.workload_id ≡ i.workload_id
  unfolding accounting_key
  own_key = rw a.enforces refl

  guard_passes : (v : String) (s : State) → guard_step h i pol v (tokens_of env r) s ≡ (s, next tt)
  unfolding guard_step
  guard_passes v s = rw (guard_step, a.unguarded) refl

  allow_passes :
      (v : String) (b : Bool) (s : State)
      → (s' : State) × (allow_step h env i pol v (tokens_of env r) b s ≡ (s', next tt))
        × (s'.tracker ≡ s.tracker)
        × (s'.degraded ≡ s.degraded)
        × (s'.metrics
            ≡ s.metrics
              ++ (requests_total i.workload_id pol.id "allow"
                  ∷ tokens_used_total i.workload_id pol.id "reservation" (tokens_of env r)
                  ∷ enforcement_decisions_total "allow" pol.id
                  ∷ []))
  unfolding allow_step emit_event count count_tokens
  allow_passes v b s =
      rw (a.enforces, count_tokens, a.accepts_estimate) (_, refl, refl, refl, three s.metrics _ _ _)

  -- Up to the upstream.
  granted_flow :
      (s : State) (tr : Tracker) (bs : BudgetStatus)
      → reserve i.workload_id (tokens_of env r) (still t) s.tracker ≡ some (tr, granted bs)
      → (s' : State) × (handle_with_policy h env r i pol s ≡ proxy_with_enforcement h env r call s')
        × (s'.tracker ≡ tr)
        × (s'.degraded ≡ s.degraded)
        × (s'.metrics
            ≡ s.metrics
              ++ (requests_total i.workload_id pol.id "allow"
                  ∷ tokens_used_total i.workload_id pol.id "reservation" (tokens_of env r)
                  ∷ enforcement_decisions_total "allow" pol.id
                  ∷ []))
  unfolding handle_with_policy reserve_tokens decide_step increment check_reserved
  granted_flow s tr bs e =
      let p = name (detect_provider r.host) in
      let (s', e', k1, k2, k3) =
        allow_passes p (is_streaming_request env.parse r.body) (record s { tracker = tr }) in
      (s', rw (guard_passes p s, own_key, a.timed.0, e, e') refl, k1, k2, k3)

  -- The reconciliation.
  reconcile_flow :
      (s : State) (tr : Tracker)
      → record_usage call.key
          (sub64 usage.total_tokens (tokens_of env r))
          env.record_add
          env.record_total
          s.tracker
        ≡ some tr
      → (s' : State) × (reconcile h env call usage s ≡ (s', next tt))
        × (s'.tracker ≡ tr)
        × (s'.degraded ≡ s.degraded)
        × (s'.metrics
            ≡ s.metrics
              ++ (tokens_used_total i.workload_id pol.id "actual" usage.total_tokens ∷ []))
  unfolding reconcile record_delta emit_event count_tokens
  reconcile_flow s tr e = elim (Bool-cases (is_zero (sub64 usage.total_tokens (tokens_of env r)))) [
    | inl z ↦ rw (record_delta, e, z, count_tokens, a.accepts_usage) (_, refl, refl, refl, refl)
    | inr z ↦ rw (record_delta, e, z, count_tokens, a.accepts_usage) (_, refl, refl, refl, refl)
  ]

  -- The way to the upstream and back.
  answered_flow :
      (s : State) (tr : Tracker)
      → record_usage call.key
          (sub64 usage.total_tokens (tokens_of env r))
          env.record_add
          env.record_total
          s.tracker
        ≡ some tr
      → (s' : State) × (proxy_with_enforcement h env r call s
          ≡ (s', respond (passed_on status pieces)))
        × (s'.tracker ≡ tr)
        × (s'.degraded ≡ s.degraded)
        × (s'.metrics
            ≡ s.metrics
              ++ (tokens_used_total i.workload_id pol.id "actual" usage.total_tokens ∷ []))
  unfolding proxy_with_enforcement proxy_to respond_with pass_body on_body on_usage
  answered_flow s tr e =
      let (s', e', k1, k2, k3) = reconcile_flow s tr e in
      (
        s',
        rw
            (
              a.routed, a.whole, proxy_to, a.answered, respond_with, a.fine, a.no_stream, pass_body,
              a.reports, on_body, on_usage, e',
            )
            refl,
        k1,
        k2,
        k3,
      )

  dispatched :
      (s : State) → s.degraded ≡ false → serve_flow h env r s ≡ handle_with_policy h env r i pol s
  unfolding serve_flow dispatch
  dispatched s d =
      untaken (pass_degraded h env r s)
        (dispatch h env r (resolve h.resolver (record { header = r.header })) s) s.degraded d
      ∙ rw (a.identified, dispatch, a.governed) refl

  -- In enforcement mode, for a request of a workload that is known, which the guard lets pass
  -- and which asks for no stream, where Reserve grants its estimate, and the upstream answers
  -- within the same second with a whole body below 500 that is no stream of events and reports
  -- the usage, where neither step wraps or clamps and the counter accepts both numbers of
  -- tokens: ServeHTTP passes the answer on; the workload's total is then what it was before with
  -- the tokens that were used, another workload is as it was, the handler is not degraded, and
  -- one allowed request is counted, with the tokens reserved and the tokens used.
  pub serve_http-bills :
      (s : State) (ws : WorkloadState) (w' : Window) (bs : BudgetStatus) (other : String)
      → s.degraded ≡ false
      → lookup i.workload_id s.tracker ≡ some ws
      → IsReady ws.limit_tokens (tokens_of env r) t ws.window
      → reserve_window ws.limit_tokens (tokens_of env r) (still t) ws.window ≡ some (w', bs, true)
      → IsSettling ws.limit_tokens (usage.total_tokens -ℤ tokens_of env r) t w'
      → other ≢ i.workload_id
      → (s' : State) × (w'' : Window) × (serve_http h env r s
          ≡ (s', some (passed_on status pieces)))
        × (lookup i.workload_id s'.tracker ≡ some (record ws { window = w'' }))
        × (w''.total_tokens ≡ (advance t ws.window).total_tokens +ℤ usage.total_tokens)
        × (lookup other s'.tracker ≡ lookup other s.tracker)
        × (s'.degraded ≡ false)
        × (s'.metrics
            ≡ s.metrics
              ++ (requests_total i.workload_id pol.id "allow"
                  ∷ tokens_used_total i.workload_id pol.id "reservation" (tokens_of env r)
                  ∷ enforcement_decisions_total "allow" pol.id
                  ∷ tokens_used_total i.workload_id pol.id "actual" usage.total_tokens
                  ∷ []))
  unfolding serve_http finish
  serve_http-bills s ws w' bs other d found ready grant settling ne =
      let n = tokens_of env r in
      let key = i.workload_id in
      let (tr2, w'', run, held, total, same) =
        record_settles key n usage.total_tokens t s.tracker ws w' bs found ready grant settling
          other ne in
      let (s1, e1, t1, d1, m1) = granted_flow s (insert key (with_window ws w') s.tracker) bs (
        reserve-granted key n usage.total_tokens t s.tracker ws w' bs found ready grant settling) in
      let (s2, e2, t2, d2, m2) =
        answered_flow s1 tr2
          (record_at (sub64 usage.total_tokens n) t own_key a.timed.1 a.timed.2 t1 run) in
      (
        s2,
        w'',
        ap (finish h env) (dispatched s d ∙ e1 ∙ e2),
        ap (lookup key) t2 ∙ held,
        total,
        ap (lookup other) t2 ∙ same,
        d2 ∙ d1 ∙ d,
        m2
            ∙ ap
                (λ ms.
                  ms ++ (tokens_used_total i.workload_id pol.id "actual" usage.total_tokens ∷ []))
                m1
            ∙ append_assoc s.metrics _ _,
      )
