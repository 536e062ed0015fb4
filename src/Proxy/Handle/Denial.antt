-- ===== src/Proxy/Handle/Denial.antt =====
-- What handleWithPolicy of internal/proxy/proxy.go makes of a reservation that Reserve of
-- internal/budget/tracker.go refused.
use koshi_runtime.Base.{
  str_eq, Bool-cases, if◌then◌else◌, ◌≡◌, refl, false, String, inl, inr, some, none, ℕ, ap, ◌∙◌,
  arith,
}
use koshi_runtime.Base.Int.{ℤ, ◌+ℤ◌, ◌≤ℤ◌, ◌<ℤ◌, pos, ◌-ℤ◌, lt_or_le_ℤ, int_laws}
use koshi_runtime.Budget.Window.{Window, advance}
use koshi_runtime.Budget.Tracker.{BudgetStatus, Reservation, reserve_window}
use koshi_runtime.Budget.Tracker.Reserve.{
  still, IsReady, allowance, promise, reserve_window-promise,
}
use koshi_runtime.Config.{Policy}
use koshi_runtime.Enforce.{evaluate, increment}
use koshi_runtime.Identity.{WorkloadIdentity}
use koshi_runtime.Proxy.Effects.{
  Handler, State, Response, next, respond, is_listener, emit_event, count,
}
use koshi_runtime.Proxy.Respond.{enforcement_response}
use koshi_runtime.Proxy.Steps.{decide_step, enforce_decision, count_denied}

-- What Reserve returns for a workload that it knows.
abbrev pub refused : BudgetStatus → Reservation
refused bs = record { status = bs; allowed = false; err = none }

pub within_limit_skips :
    (h : Handler) (i : WorkloadIdentity) (pol : Policy) (p : String) (n : ℤ) (bs : BudgetStatus)
    (s : State)
    → bs.window_tokens_used ≤ℤ bs.window_tokens_limit
    → decide_step h i pol p n (refused bs) s ≡ (s, next tt)
unfolding decide_step evaluate increment
within_limit_skips h i pol p n bs s le =
    elim (lt_or_le_ℤ bs.window_tokens_limit bs.window_tokens_used) [
      | inl (_, _, more) ↦ absurd (omega (arith, more, le))
      | inr (_, within, _) ↦ rw within refl
    ]

-- The budget of a window that a refusal leaves as it was.
abbrev before : ℤ → Window → BudgetStatus
before limit w = record {
  window_tokens_used = w.total_tokens;
  window_tokens_limit = limit;
  burst_remaining = w.burst_remaining;
}

promise_refused :
    (limit est : ℤ) (w : Window)
    → pos 0 ≤ℤ w.burst_remaining
    → allowance limit w <ℤ w.total_tokens +ℤ est
    → promise limit est w ≡ (w, before limit w, false)
promise_refused limit est w h more = elim (lt_or_le_ℤ limit (w.total_tokens +ℤ est)) [
  | inr (_, _, le) ↦ absurd (omega (int_laws, le, more, h))
  | inl (_, over, _) ↦
      rw over (elim (lt_or_le_ℤ w.burst_remaining (w.total_tokens +ℤ est -ℤ limit)) [
        | inl (_, lacks, _) ↦ rw lacks refl
        | inr (_, _, enough) ↦ absurd (omega (int_laws, enough, more))
      ])
]

-- A reservation that limit and burst together do not cover is refused and leaves the window as
-- it was; where the window's own total is within the limit, the step of the decision then goes
-- on without an answer, an event or a count, as if the reservation had been granted.
pub refused-decide_step :
    (h : Handler) (i : WorkloadIdentity) (pol : Policy) (p : String) (s : State) (limit est : ℤ)
    (t : ℕ) (w : Window)
    → IsReady limit est t w
    → (advance t w).total_tokens ≤ℤ limit
    → allowance limit (advance t w) <ℤ (advance t w).total_tokens +ℤ est
    → (bs : BudgetStatus) × (reserve_window limit est (still t) w ≡ some (advance t w, bs, false))
      × (decide_step h i pol p est (refused bs) s ≡ (s, next tt))
refused-decide_step h i pol p s limit est t w r within more = (
  before limit (advance t w),
  reserve_window-promise limit est t w r
      ∙ ap some (promise_refused limit est (advance t w) r.burst_ok.0 more),
  within_limit_skips h i pol p est (before limit (advance t w)) s within,
)

over_limit_answers :
    (h : Handler) (i : WorkloadIdentity) (pol : Policy) (p : String) (n : ℤ) (bs : BudgetStatus)
    (s : State)
    → is_listener h ≡ false
    → bs.window_tokens_limit <ℤ bs.window_tokens_used
    → (s' : State) × (r : Response) × (decide_step h i pol p n (refused bs) s ≡ (s', respond r))
      × (s'.tracker ≡ s.tracker)
      × (r.status ≡ (if str_eq pol.decision_tiers.tier3_platform "kill_workload" then 503 else 429))
unfolding decide_step evaluate increment enforce_decision count_denied emit_event count
    enforcement_response
over_limit_answers h i pol p n bs s l more =
    elim (lt_or_le_ℤ bs.window_tokens_limit bs.window_tokens_used) [
      | inr (_, _, le) ↦ absurd (omega (arith, more, le))
      | inl (_, over, _) ↦
          elim (Bool-cases (str_eq pol.decision_tiers.tier3_platform "kill_workload")) [
            | inl k ↦ rw (over, k, l) (_, _, refl, refl, refl)
            | inr k ↦ rw (over, k, l) (_, _, refl, refl, refl)
          ]
    ]

-- In enforcement mode, a reservation that limit and burst together do not cover, on a window
-- whose own total is above the limit, is refused and leaves the window as it was; on what
-- Reserve then reports, the step of the decision answers the request, with 503 where the policy
-- says to kill the workload and with 429 else, and keeps the tracker.
pub over_limit-decide_step :
    (h : Handler) (i : WorkloadIdentity) (pol : Policy) (p : String) (s : State) (limit est : ℤ)
    (t : ℕ) (w : Window)
    → is_listener h ≡ false
    → IsReady limit est t w
    → limit <ℤ (advance t w).total_tokens
    → allowance limit (advance t w) <ℤ (advance t w).total_tokens +ℤ est
    → (bs : BudgetStatus) × (s' : State) × (r : Response) × (reserve_window limit est (still t) w
        ≡ some (advance t w, bs, false))
      × (decide_step h i pol p est (refused bs) s ≡ (s', respond r))
      × (s'.tracker ≡ s.tracker)
      × (r.status ≡ (if str_eq pol.decision_tiers.tier3_platform "kill_workload" then 503 else 429))
over_limit-decide_step h i pol p s limit est t w enforcing ready above more =
    let bs = before limit (advance t w) in
    let (s', r, answers, kept, status) = over_limit_answers h i pol p est bs s enforcing above in
    (
      bs,
      s',
      r,
      reserve_window-promise limit est t w ready
          ∙ ap some (promise_refused limit est (advance t w) ready.burst_ok.0 more),
      answers,
      kept,
      status,
    )
