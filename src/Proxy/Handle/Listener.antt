-- ===== src/Proxy/Handle/Listener.antt =====
-- Listener mode of handleWithPolicy of internal/proxy/proxy.go.
use koshi_runtime.Base.{
  ◌≡◌, refl, sym, ◌∙◌, ◌++◌, ◌∷◌, [], ap, Bool, if◌then◌else◌, true, false, String, some, inl, inr,
  Option-cases,
}
use koshi_runtime.Base.Int.{ℤ}
use koshi_runtime.Budget.Tracker.{Reservation, reserve}
use koshi_runtime.Budget.Tracker.Frame.{AllValid, reserve_runs}
use koshi_runtime.Config.{Policy}
use koshi_runtime.Enforce.{check_per_request_guard, increment}
use koshi_runtime.Identity.{WorkloadIdentity}
use koshi_runtime.Proxy.Effects.{
  Handler, State, Env, Request, M, next, skip, unless, ◌>>◌, bind_outcome, accounting_key,
  is_listener, Metric, emit_event, count, count_tokens,
}
use koshi_runtime.Proxy.Steps.{
  shadow, guard_denied, guard_step, reserve_tokens, check_reserved, enforce_decision, decide_step,
  allow_step, estimate, handle_with_policy,
}
use koshi_runtime.Proxy.Upstream.{proxy_with_enforcement}
use koshi_runtime.Provider.{detect_provider, name}
use koshi_runtime.Proxy.TokenCount.{is_streaming_request}

-- A step that always goes on, and leaves the budgets alone.
record Passes (m : M (Unit {0})) : Type 0 where
  on : (s : State) → (s' : State) × (m s ≡ (s', next tt)) × (s'.tracker ≡ s.tracker)

skip-Passes : Passes skip
skip-Passes = record { on = λ s. (s, refl, refl) }

if_Passes : (b : Bool) (m k : M (Unit {0})) → Passes m → Passes k → Passes (if b then m else k)
if_Passes true m k p q = p
if_Passes false m k p q = q

unless-Passes : (b : Bool) (m : M (Unit {0})) → Passes m → Passes (unless b m)
unless-Passes true m p = record { on = λ s. (s, refl, refl) }
unless-Passes false m p = record { on = λ s. p.on s }

then-Passes : (m k : M (Unit {0})) → Passes m → Passes k → Passes (m >> k)
then-Passes m k p q = record {
  on = λ s.
      let (s1, e1, t1) = p.on s in
      let (s2, e2, t2) = q.on s1 in (s2, ap (λ o. bind_outcome o (λ _. k)) e1 ∙ e2, t2 ∙ t1);
}

count_tokens-Passes :
    (env : Env) (n : ℤ) (m : Metric) → env.accepts n ≡ true → Passes (count_tokens env n m)
unfolding count_tokens
count_tokens-Passes env n m e = record {
  on = λ s. (record s { metrics = s.metrics ++ (m ∷ []) }, rw e refl, refl);
}

module _ (h : Handler) (l : is_listener h ≡ true) where
  shadow-Passes : (i : WorkloadIdentity) (d c v : String) (n : ℤ) → Passes (shadow h i d c v n)
  unfolding shadow emit_event count
  shadow-Passes i d c v n = record { on = λ s. (_, refl, refl) }

  guard_step-Passes :
      (i : WorkloadIdentity) (pol : Policy) (v : String) (n : ℤ) → Passes (guard_step h i pol v n)
  unfolding guard_step guard_denied
  guard_step-Passes i pol v n = elim (Option-cases (check_per_request_guard pol n)) [
    | inl e ↦ rw (guard_step, e) skip-Passes
    | inr (d, e) ↦ rw (guard_step, e, guard_denied, l) (shadow-Passes i _ _ v n)
  ]

  check_reserved-Passes : (r : Reservation) → Passes (check_reserved h r)
  unfolding check_reserved
  check_reserved-Passes r = elim (Option-cases r.err) [
    | inl e ↦ rw e skip-Passes
    | inr (x, e) ↦ rw (e, l) skip-Passes
  ]

  decide_step-Passes :
      (i : WorkloadIdentity) (pol : Policy) (v : String) (n : ℤ) (r : Reservation)
      → Passes (decide_step h i pol v n r)
  unfolding decide_step increment enforce_decision
  decide_step-Passes i pol v n r =
      rw l (if_Passes _ _ _ (unless-Passes _ _ (shadow-Passes i _ _ v n)) skip-Passes)

  allow_step-Passes :
      (env : Env) (i : WorkloadIdentity) (pol : Policy) (v : String) (n : ℤ) (b : Bool)
      → env.accepts n ≡ true
      → Passes (allow_step h env i pol v n b)
  unfolding allow_step
  allow_step-Passes env i pol v n b e =
      rw l (then-Passes _ _ (shadow-Passes i _ _ v n) (count_tokens-Passes env n _ e))

  -- In listener mode, on valid budgets and an estimate that the counter accepts,
  -- handleWithPolicy answers nothing itself: whatever the guard, the reservation and the
  -- decision say, it comes to proxyWithEnforcement, with the tracker that Reserve leaves.
  pub handle_with_policy-passes :
      (env : Env) (r : Request) (i : WorkloadIdentity) (pol : Policy) (s : State)
      → AllValid s.tracker
      → env.accepts (estimate env r (detect_provider r.host)) ≡ true
      → let pt = detect_provider r.host in
        let n = estimate env r pt in
        let key = accounting_key h i.workload_id in
        let streaming = is_streaming_request env.parse r.body in
        (s' : State) × (res : Reservation) × (reserve key n env.readings s.tracker
          ≡ some (s'.tracker, res))
        × (handle_with_policy h env r i pol s
            ≡ proxy_with_enforcement h env r
                (record {
                  ident = i;
                  policy_id = pol.id;
                  provider = pt;
                  reserved = n;
                  streaming = streaming;
                  key = key;
                })
                s')
  unfolding handle_with_policy reserve_tokens
  handle_with_policy-passes env r i pol s v a =
      let pt = detect_provider r.host in
      let n = estimate env r pt in
      let key = accounting_key h i.workload_id in
      let (s1, e1, t1) = (guard_step-Passes i pol (name pt) n).on s in
      let (t, res, e2, _, _) = reserve_runs key n env.readings s1.tracker (rw t1 v) in
      let (s3, e3, t3) = (check_reserved-Passes res).on (record s1 { tracker = t }) in
      let (s4, e4, t4) = (decide_step-Passes i pol (name pt) n res).on s3 in
      let (s5, e5, t5) =
        (allow_step-Passes env i pol (name pt) n (is_streaming_request env.parse r.body) a).on s4 in
      (
        s5,
        res,
        ap (λ u. reserve key n env.readings u) (sym t1)
            ∙ e2
            ∙ ap (λ u. some (u, res)) (sym (t5 ∙ t4 ∙ t3)),
        rw (e1, e2, e3, e4, e5) refl,
      )
