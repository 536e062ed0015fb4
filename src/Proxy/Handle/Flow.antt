-- ===== src/Proxy/Handle/Flow.antt =====
-- The steps of ServeHTTP of internal/proxy/proxy.go under the rules of Keeps.
use koshi_runtime.Base.{
  ℕ, Bool, true, leb, List, Option, none, some, String, inl, inr, Option-cases,
}
use koshi_runtime.Base.Int.{ℤ}
use koshi_runtime.Base.Result.{Result, ok, err}
use koshi_runtime.Budget.Tracker.{BudgetStatus, Reservation}
use koshi_runtime.Config.{Policy}
use koshi_runtime.Enforce.{Decision, evaluate, increment, check_per_request_guard}
use koshi_runtime.Identity.{WorkloadIdentity, no_identity}
use koshi_runtime.Json.{Text, codes}
use koshi_runtime.Provider.{is_infix}
use koshi_runtime.Policy.{lookup_policy}
use koshi_runtime.Provider.Usage.{UsageData, ParseError}
use koshi_runtime.Proxy.Effects.{
  Handler, State, Env, Url, Request, Reply, no_reply, reply, Outcome, next, respond, panicked, M,
  is_listener,
}
use koshi_runtime.Proxy.Steps.{
  shadow, count_denied, guard_denied, guard_step, check_reserved, enforce_decision, decide_step,
  allow_step, handle_with_policy,
}
use koshi_runtime.Proxy.Sse.{SseParser}
use koshi_runtime.Proxy.TokenCount.{Injected, inject_stream_options}
use koshi_runtime.Proxy.Upstream.{
  Call, asks_usage, passed_on, stream_parser, direct, direct_to, proxy_direct, reconcile, refund,
  on_usage, pass_stream, on_body, upstream_failed, pass_body, respond_with, with_body,
  resolve_upstream, proxy_to, proxy_with_enforcement,
}
use koshi_runtime.Proxy.Handle.{
  reject_identity, reject_policy, dispatch, pass_degraded, serve_flow, recover, finish, serve_http,
}
use koshi_runtime.Proxy.Handle.Keeps.{
  Keeps, IsQuiet, IsKept, choice_keeps, bind-Keeps, then-Keeps, if_Keeps, unless-Keeps, sent-Keeps,
  cut_off-Keeps, answer-Keeps, skip-Keeps,
}

module _ {P : State → Type 0} (h : Handler) (k : IsQuiet h P) where
  shadow-Keeps : (i : WorkloadIdentity) (d c v : String) (n : ℤ) → Keeps P (shadow h i d c v n)
  unfolding shadow
  shadow-Keeps i d c v n = then-Keeps _ _ (k.at_emit _) (k.at_count _)

  count_denied-Keeps : (a b : String) → Keeps P (count_denied a b)
  unfolding count_denied
  count_denied-Keeps a b = then-Keeps _ _ (k.at_count _) (k.at_count _)

  guard_denied-Keeps :
      (i : WorkloadIdentity) (pol : Policy) (v : String) (n : ℤ) (d : Decision)
      → Keeps P (guard_denied h i pol v n d)
  unfolding guard_denied
  guard_denied-Keeps i pol v n d = if_Keeps (is_listener h) _ _ (shadow-Keeps i _ _ v n) (
      then-Keeps _ _ (k.at_emit _)
        (then-Keeps _ _ (count_denied-Keeps i.workload_id pol.id) (answer-Keeps _)))

  pub guard_step-Keeps :
      (i : WorkloadIdentity) (pol : Policy) (v : String) (n : ℤ) → Keeps P (guard_step h i pol v n)
  unfolding guard_step
  guard_step-Keeps i pol v n = elim (Option-cases (check_per_request_guard pol n)) [
    | inl e ↦ rw (e, guard_step) skip-Keeps
    | inr (d, e) ↦ rw (e, guard_step) (guard_denied-Keeps i pol v n d)
  ]

  pub check_reserved-Keeps : (r : Reservation) → Keeps P (check_reserved h r)
  unfolding check_reserved
  check_reserved-Keeps r = elim (Option-cases r.err) [
    | inl e ↦ rw (e, check_reserved) skip-Keeps
    | inr (_, e) ↦
        rw (e, check_reserved)
          (if_Keeps (is_listener h) _ _ skip-Keeps (then-Keeps _ _ (k.at_count _) (answer-Keeps _)))
  ]

  enforce_decision-Keeps :
      (i : WorkloadIdentity) (pol : Policy) (v : String) (n : ℤ) (bs : BudgetStatus) (d : Decision)
      → Keeps P (enforce_decision h i pol v n bs d)
  unfolding enforce_decision
  enforce_decision-Keeps i pol v n bs d = if_Keeps (is_listener h) _ _ (shadow-Keeps i _ _ v n) (
      then-Keeps _ _ (k.at_emit _)
        (then-Keeps _ _ (count_denied-Keeps i.workload_id pol.id) (answer-Keeps _)))

  pub decide_step-Keeps :
      (i : WorkloadIdentity) (pol : Policy) (v : String) (n : ℤ) (r : Reservation)
      → Keeps P (decide_step h i pol v n r)
  unfolding decide_step increment
  decide_step-Keeps i pol v n r =
      if_Keeps _ _ _
        (unless-Keeps _ _
          (enforce_decision-Keeps i pol v n r.status (evaluate pol r.status (increment "").0)))
        skip-Keeps

  pub allow_step-Keeps :
      (env : Env) (i : WorkloadIdentity) (pol : Policy) (v : String) (n : ℤ) (b : Bool)
      → Keeps P (allow_step h env i pol v n b)
  unfolding allow_step
  allow_step-Keeps env i pol v n b =
      if_Keeps (is_listener h) _ _
        (then-Keeps _ _ (shadow-Keeps i _ _ v n) (k.at_count_tokens env n _))
        (then-Keeps _ _ (k.at_emit _) (
          then-Keeps _ _ (k.at_count _)
            (then-Keeps _ _ (k.at_count_tokens env n _) (k.at_count _))))

  pub upstream_failed-Keeps : (c : Call) (e : String) → Keeps P (upstream_failed h c e)
  unfolding upstream_failed
  upstream_failed-Keeps c e = then-Keeps _ _ (k.at_emit _) (answer-Keeps _)

module _ {P : State → Type 0} (h : Handler) (k : IsKept h P) where
  reconcile-Keeps : (env : Env) (c : Call) (u : UsageData) → Keeps P (reconcile h env c u)
  unfolding reconcile
  reconcile-Keeps env c u =
      then-Keeps _ _ (k.at_record env c.key _)
        (then-Keeps _ _ (unless-Keeps _ _ (k.quiet.at_emit _)) (k.quiet.at_count_tokens env _ _))

  refund-Keeps : (env : Env) (c : Call) (n : ℕ) → Keeps P (refund h env c n)
  unfolding refund
  refund-Keeps env c n = then-Keeps _ _ (k.at_record env c.key _) (
      then-Keeps _ _ (k.quiet.at_emit _)
        (then-Keeps _ _ (k.quiet.at_count_tokens env _ _) (k.quiet.at_emit _)))

  on_usage-Keeps : (env : Env) (c : Call) (u : Option UsageData) → Keeps P (on_usage h env c u)
  unfolding on_usage
  on_usage-Keeps env c none = skip-Keeps
  on_usage-Keeps env c (some u) = reconcile-Keeps env c u

  pass_stream-Keeps :
      (env : Env) (c : Call) (n : ℕ) (ps : List Text) (b : Option String) (p : Option SseParser)
      → Keeps P (pass_stream h env c n ps b p)
  unfolding pass_stream
  pass_stream-Keeps env c n ps b none = sent-Keeps _ _ (cut_off-Keeps b)
  pass_stream-Keeps env c n ps b (some p) =
      sent-Keeps _ _ (then-Keeps _ _ (on_usage-Keeps env c _) (cut_off-Keeps b))

  on_body-Keeps :
      (env : Env) (c : Call) (u : Option (Result ParseError (Option UsageData)))
      → Keeps P (on_body h env c u)
  unfolding on_body
  on_body-Keeps env c (some (ok u)) = on_usage-Keeps env c u
  on_body-Keeps env c (some (err e)) = skip-Keeps
  on_body-Keeps env c none = skip-Keeps

  pass_body-Keeps :
      (env : Env) (c : Call) (n : ℕ) (ps : List Text) (b : Option String)
      → Keeps P (pass_body h env c n ps b)
  unfolding pass_body
  pass_body-Keeps env c n ps (some e) = upstream_failed-Keeps h k.quiet c e
  pass_body-Keeps env c n ps none = then-Keeps _ _ (on_body-Keeps env c _) (answer-Keeps _)

  respond_with-Keeps : (env : Env) (c : Call) (r : Reply) → Keeps P (respond_with h env c r)
  unfolding respond_with
  respond_with-Keeps env c (no_reply e) = upstream_failed-Keeps h k.quiet c e
  respond_with-Keeps env c (reply n ct ps b) =
      if_Keeps (leb 500 n) _ _
        (then-Keeps _ _ (refund-Keeps env c n) (sent-Keeps (passed_on n ps) _ (cut_off-Keeps b)))
        (if_Keeps (is_infix (codes "text/event-stream") ct) _ _
          (pass_stream-Keeps env c n ps b (stream_parser h c)) (pass_body-Keeps env c n ps b))

  with_body-Keeps :
      (i : Injected) (body : Text) (m : Text → M (Unit {0}))
      → ((t : Text) → Keeps P (m t))
      → Keeps P (with_body i body m)
  unfolding with_body
  with_body-Keeps Injected.panicked body m keep = record { after = λ s p. p }
  with_body-Keeps Injected.failed body m keep = keep body
  with_body-Keeps (Injected.injected new) body m keep = keep new

  proxy_to-Keeps :
      (env : Env) (r : Request) (c : Call) (u : Option Url) → Keeps P (proxy_to h env r c u)
  unfolding proxy_to
  proxy_to-Keeps env r c none = answer-Keeps _
  proxy_to-Keeps env r c (some u) =
      if_Keeps (asks_usage h c) _ _
        (with_body-Keeps (inject_stream_options env.parse env.marshal r.body) r.body _
          (λ body. respond_with-Keeps env c (env.upstream u body)))
        (respond_with-Keeps env c (env.upstream u r.body))

  proxy_with_enforcement-Keeps :
      (env : Env) (r : Request) (c : Call) → Keeps P (proxy_with_enforcement h env r c)
  unfolding proxy_with_enforcement
  proxy_with_enforcement-Keeps env r c = proxy_to-Keeps env r c (resolve_upstream h env r)

  handle_with_policy-Keeps :
      (env : Env) (r : Request) (i : WorkloadIdentity) (pol : Policy)
      → Keeps P (handle_with_policy h env r i pol)
  unfolding handle_with_policy
  handle_with_policy-Keeps env r i pol = then-Keeps _ _ (guard_step-Keeps h k.quiet i pol _ _) (
      bind-Keeps _ _ (k.at_reserve env _ _) (λ res.
        then-Keeps _ _ (check_reserved-Keeps h k.quiet res) (
          then-Keeps _ _ (decide_step-Keeps h k.quiet i pol _ _ res) (
            then-Keeps _ _ (allow_step-Keeps h k.quiet env i pol _ _ _)
              (proxy_with_enforcement-Keeps env r _)))))

  direct-Keeps : (x : Reply) → Keeps P (direct x)
  unfolding direct
  direct-Keeps (no_reply e) = answer-Keeps _
  direct-Keeps (reply n ct ps b) = sent-Keeps _ _ (cut_off-Keeps b)

  direct_to-Keeps : (env : Env) (r : Request) (u : Option Url) → Keeps P (direct_to env r u)
  unfolding direct_to
  direct_to-Keeps env r none = answer-Keeps _
  direct_to-Keeps env r (some u) = direct-Keeps (env.upstream u r.body)

  proxy_direct-Keeps : (env : Env) (r : Request) → Keeps P (proxy_direct h env r)
  unfolding proxy_direct
  proxy_direct-Keeps env r = direct_to-Keeps env r (resolve_upstream h env r)

  reject_identity-Keeps : (env : Env) (r : Request) → Keeps P (reject_identity h env r)
  unfolding reject_identity
  reject_identity-Keeps env r =
      if_Keeps (is_listener h) _ _
        (then-Keeps _ _ (shadow-Keeps h k.quiet _ _ _ _ _) (proxy_direct-Keeps env r))
        (then-Keeps _ _ (k.quiet.at_emit _) (then-Keeps _ _ (k.quiet.at_count _) (answer-Keeps _)))

  reject_policy-Keeps :
      (env : Env) (r : Request) (i : WorkloadIdentity) → Keeps P (reject_policy h env r i)
  unfolding reject_policy
  reject_policy-Keeps env r i =
      if_Keeps (is_listener h) _ _
        (then-Keeps _ _ (shadow-Keeps h k.quiet i _ _ _ _) (proxy_direct-Keeps env r))
        (then-Keeps _ _ (k.quiet.at_emit _)
          (then-Keeps _ _ (count_denied-Keeps h k.quiet i.workload_id "none") (answer-Keeps _)))

  dispatch-Keeps :
      (env : Env) (r : Request) (i : Option WorkloadIdentity) → Keeps P (dispatch h env r i)
  unfolding dispatch
  dispatch-Keeps env r none = elim (Option-cases (lookup_policy h.policy_engine no_identity)) [
    | inl e ↦ rw (e, dispatch) (reject_identity-Keeps env r)
    | inr (pol, e) ↦ rw (e, dispatch) (handle_with_policy-Keeps env r _ pol)
  ]
  dispatch-Keeps env r (some i) = elim (Option-cases (lookup_policy h.policy_engine i)) [
    | inl e ↦ rw (e, dispatch) (reject_policy-Keeps env r i)
    | inr (pol, e) ↦ rw (e, dispatch) (handle_with_policy-Keeps env r i pol)
  ]

  pass_degraded-Keeps : (env : Env) (r : Request) → Keeps P (pass_degraded h env r)
  unfolding pass_degraded
  pass_degraded-Keeps env r = then-Keeps _ _ (k.quiet.at_emit _) (proxy_direct-Keeps env r)

  serve_flow-Keeps : (env : Env) (r : Request) → Keeps P (serve_flow h env r)
  unfolding serve_flow
  serve_flow-Keeps env r = record {
    after = λ s p.
        choice_keeps P s.degraded _ _ ((pass_degraded-Keeps env r).after s p)
          ((dispatch-Keeps env r _).after s p);
  }

  recover_keeps : (env : Env) (s : State) → P s → P (recover h env s)
  unfolding recover
  recover_keeps env s p =
      (k.quiet.at_emit _).after (record s { degraded = true }) (k.at_degrade s p)

  finish_keeps : (env : Env) (o : State × Outcome (Unit {0})) → P o.0 → P (finish h env o).0
  unfolding finish
  finish_keeps env (s, next _) p = p
  finish_keeps env (s, respond r) p = p
  finish_keeps env (s, panicked none) p = recover_keeps env s p
  finish_keeps env (s, panicked (some r)) p = recover_keeps env s p

  pub serve_http_keeps : (env : Env) (r : Request) (s : State) → P s → P (serve_http h env r s).0
  unfolding serve_http
  serve_http_keeps env r s p = finish_keeps env _ ((serve_flow-Keeps env r).after s p)
