-- ===== src/Proxy/Upstream/Refund.antt =====
-- What becomes of a reservation when the upstream fails, in internal/proxy/proxy.go.
use koshi_runtime.Base.{ℕ, ◌≤◌, ◌≡◌, ◌≢◌, refl, ◌∙◌, true, List, Option, some, String, leb, arith}
use koshi_runtime.Base.Dict.{lookup, insert}
use koshi_runtime.Base.Int.{ℤ, pos, ◌+ℤ◌, ◌-ℤ◌, sub64, int_laws}
use koshi_runtime.Budget.Tracker.{
  Tracker, WorkloadState, BudgetStatus, reserve, reserve_window, record_usage,
}
use koshi_runtime.Budget.Tracker.Reconcile.{IsSettling}
use koshi_runtime.Budget.Tracker.Reserve.{still, IsReady}
use koshi_runtime.Budget.Tracker.Settled.{granted, with_window, reserve-granted, record_settles}
use koshi_runtime.Budget.Window.{Window, advance}
use koshi_runtime.Json.{Text}
use koshi_runtime.Proxy.Effects.{
  Handler, State, Env, no_reply, reply, respond, sent, cut_off, next, emit_event, count_tokens,
}
use koshi_runtime.Proxy.Respond.{error_response}
use koshi_runtime.Proxy.Upstream.{
  Call, passed_on, record_delta, refund, respond_with, upstream_failed,
}

refund_flow :
    (h : Handler) (env : Env) (c : Call) (status : ℕ) (s : State) (tr : Tracker)
    → record_usage c.key (sub64 (pos 0) c.reserved) env.record_add env.record_total s.tracker
      ≡ some tr
    → env.accepts c.reserved ≡ true
    → (s' : State) × (refund h env c status s ≡ (s', next tt))
      × (s'.tracker ≡ tr)
      × (s'.degraded ≡ s.degraded)
unfolding refund record_delta emit_event count_tokens
refund_flow h env c status s tr run accepted =
    rw (refund, record_delta, run, count_tokens, accepted) (_, refl, refl, refl)

plus_zero : (a : ℤ) → a +ℤ pos 0 ≡ a
plus_zero a = omega int_laws

-- A reservation that Reserve grants, and that Record takes back within the same second, where
-- neither step wraps or clamps and the counter accepts it: an answer of 500 or more is passed on
-- as far as it comes, with a panic behind it where its body breaks off; the workload's total is
-- then what it was before the reservation, and another workload is as it was. A failure to
-- answer is a 504 instead, and the reservation stays booked.
pub reserve-respond_with :
    (h : Handler) (env : Env) (c : Call) (status : ℕ) (ct : Text) (pieces : List Text)
    (broken : Option String) (e : String) (s : State) (t : ℕ) (ws : WorkloadState) (w' : Window)
    (bs : BudgetStatus) (other : String)
    → lookup c.key s.tracker ≡ some ws
    → IsReady ws.limit_tokens c.reserved t ws.window
    → reserve_window ws.limit_tokens c.reserved (still t) ws.window ≡ some (w', bs, true)
    → IsSettling ws.limit_tokens (pos 0 -ℤ c.reserved) t w'
    → env.record_add ≡ t
    → env.record_total ≡ t
    → env.accepts c.reserved ≡ true
    → 500 ≤ status
    → other ≢ c.key
    → (t1 : Tracker) × (reserve c.key c.reserved (still t) s.tracker ≡ some (t1, granted bs))
      × ((s' : State) × (w'' : Window) × (respond_with h env c
              (reply status ct pieces broken)
              (record s { tracker = t1 })
            ≡ sent (passed_on status pieces) (cut_off broken) s')
          × (lookup c.key s'.tracker ≡ some (with_window ws w''))
          × (w''.total_tokens ≡ (advance t ws.window).total_tokens)
          × (lookup other s'.tracker ≡ lookup other s.tracker)
          × (s'.degraded ≡ s.degraded))
      × ((s' : State) × (respond_with h env c (no_reply e) (record s { tracker = t1 }) ≡ (
        s',
        respond (
            error_response 504 "upstream_timeout" "system" "upstream_did_not_respond" "reject"
              "upstream_timeout"),
      ))
          × (s'.tracker ≡ t1)
          × (s'.degraded ≡ s.degraded))
unfolding respond_with emit_event upstream_failed
reserve-respond_with h env c status ct pieces broken e s t ws w' bs other found ready grant settling
      add_at total_at accepted high ne =
    let t1 : Tracker = insert c.key (with_window ws w') s.tracker in
    let (tr, w'', run, held, total, same) =
      record_settles c.key c.reserved (pos 0) t s.tracker ws w' bs found ready grant settling other
        ne in
    let (s', refunds, kept, fine) =
      refund_flow h env c status (record s { tracker = t1 }) tr (rw (add_at, total_at) run)
        accepted in
    let error : leb 500 status ≡ true = ground arith in
    (
      t1,
      reserve-granted c.key c.reserved (pos 0) t s.tracker ws w' bs found ready grant settling,
      (
        s',
        w'',
        rw (respond_with, error, refunds) refl,
        rw kept held,
        total ∙ plus_zero (advance t ws.window).total_tokens,
        rw kept same,
        fine,
      ),
      (_, refl, refl, refl),
    )
