-- ===== src/Budget/Tracker/Reconcile.antt =====
-- Record of internal/budget/tracker.go: the reservation is settled by the actual usage.
use koshi_runtime.Base.{
  ℕ, ◌+◌, ◌*◌, ◌^◌, ◌≤◌, ◌<◌, ◌≡◌, ap, ◌∙◌, Bool, inl, inr, true, some, if◌then◌else◌, arith,
}
use koshi_runtime.Base.Int.{
  ℤ, pos, magnitude, ◌+ℤ◌, ◌-ℤ◌, ◌≤ℤ◌, ltb_ℤ, sub64_amounts, add64-eq, lt_or_le_ℤ, int_laws,
}
use koshi_runtime.Budget.Window.{
  Window, advance, deposit, total, replenish_burst, reported, truncate,
}
use koshi_runtime.Budget.Window.Excess.{load, Fits, advance-excess}
use koshi_runtime.Budget.Window.Still.{
  advance-deposit, advance_still, head_time-advance, deposit-total, clamp_id,
}
use koshi_runtime.Budget.Window.Valid.{IsValid, add-some}
use koshi_runtime.Budget.Tracker.{BudgetStatus, reserve_window, record_window, replenish}
use koshi_runtime.Budget.Tracker.Reserve.{
  IsReady, still, promise, reserve_window-promise, reserve_window_bounds,
}

-- What Record does in whole numbers: the delta is booked, and what then lies below the limit goes
-- to the burst, up to its maximum.
abbrev pub settlement : ℤ → ℤ → Window → Window
settlement limit delta w =
    let used = w.total_tokens +ℤ delta in
    let booked = deposit delta w in
    let burst = w.burst_remaining +ℤ (limit -ℤ used) in
    if ltb_ℤ used limit
    then record booked { burst_remaining = if ltb_ℤ w.burst_max burst then w.burst_max else burst }
    else booked

-- A delta that Record applies with no wrap and no clamp.
pub record IsSettling (limit delta : ℤ) (t : ℕ) (w : Window) : Type 0 where
  pub valid : IsValid w
  pub fits : load w + 4 * magnitude delta < 2 ^ 63
  pub after : pos 0 ≤ℤ (advance t w).total_tokens +ℤ delta
  pub limit_ok : (pos 0 ≤ℤ limit) × (magnitude limit < 2 ^ 62)
  pub burst_ok :
      (pos 0 ≤ℤ (advance t w).burst_remaining) × (magnitude (advance t w).burst_remaining < 2 ^ 62)

module _ (limit delta : ℤ) (t : ℕ) (w : Window) (r : IsSettling limit delta t w) where
  settled-Fits : Fits delta (advance t w)
  settled-Fits = omega (arith, (advance-excess t w r.valid (omega (arith, r.fits))).1, r.fits)

  settled_total : (deposit delta (advance t w)).total_tokens ≡ (advance t w).total_tokens +ℤ delta
  settled_total = deposit-total delta (advance t w) settled-Fits r.after

  settled_reported : reported (deposit delta (advance t w)) ≡ (advance t w).total_tokens +ℤ delta
  settled_reported = rw settled_total (clamp_id ((advance t w).total_tokens +ℤ delta) r.after)

  replenished :
      replenish limit (deposit delta (advance t w), (advance t w).total_tokens +ℤ delta)
      ≡ settlement limit delta (advance t w)
  unfolding replenish replenish_burst deposit
  replenished = elim (lt_or_le_ℤ used limit) [
    | inr (above, _, _) ↦ rw above
    | inl (below, _, less) ↦ rw (
      below,
      sub64_amounts limit used (omega (arith, r.limit_ok)) (omega (int_laws, r.limit_ok, r.after)),
      add64-eq burst (limit -ℤ used) (omega (int_laws, r.limit_ok, r.burst_ok, r.after)),
    )
  ]
    where
      used : ℤ
      used = (advance t w).total_tokens +ℤ delta

      burst : ℤ
      burst = (advance t w).burst_remaining

  -- Within one second of the clock, where nothing wraps or clamps and limit and burst are below
  -- 2 ^ 62, Record, written with int64, is the specification `settlement` in whole numbers: it
  -- books the delta and returns burst for what lies below the limit, up to the maximum.
  pub record_window-settlement :
      record_window limit delta t t w ≡ some (settlement limit delta (advance t w))
  unfolding record_window total
  record_window-settlement =
      rw (add-some delta t w r.valid, advance-deposit delta t (advance t w) (head_time-advance t w))
        (ap (λ u. some (replenish limit (deposit delta (advance t w), u))) settled_reported
          ∙ ap some replenished)

settlement_total :
    (limit delta : ℤ) (w : Window)
    → (deposit delta w).total_tokens ≡ w.total_tokens +ℤ delta
    → (settlement limit delta w).total_tokens ≡ w.total_tokens +ℤ delta
settlement_total limit delta w e = ground arith

head_time-promise : (limit est : ℤ) (w : Window) → (promise limit est w).0.head_time ≡ w.head_time
unfolding deposit
head_time-promise limit est w = ground arith

granted :
    (limit est : ℤ) (t : ℕ) (w : Window) {w' : Window} {status : BudgetStatus} {allowed : Bool}
    → IsReady limit est t w
    → reserve_window limit est (still t) w ≡ some (w', status, allowed)
    → (w', status, allowed) ≡ promise limit est (advance t w)
granted limit est t w r e = ground (arith, reserve_window-promise limit est t w r)

charged_total :
    (limit est : ℤ) (t : ℕ) (w : Window) {w' : Window} {status : BudgetStatus}
    → IsReady limit est t w
    → reserve_window limit est (still t) w ≡ some (w', status, true)
    → w'.total_tokens ≡ (advance t w).total_tokens +ℤ est
charged_total limit est t w r e =
    let (v, status, allowed, run, charged, _, _) = reserve_window_bounds limit est t w r in
    ground (arith, run, e, charged)

head_time-granted :
    (limit est : ℤ) (t : ℕ) (w : Window) {w' : Window} {status : BudgetStatus}
    → IsReady limit est t w
    → reserve_window limit est (still t) w ≡ some (w', status, true)
    → truncate t ≤ w'.head_time
head_time-granted limit est t w r e = ground (
  arith,
  granted limit est t w r e,
  head_time-promise limit est (advance t w),
  head_time-advance t w,
)

regroup : (base est actual : ℤ) → base +ℤ est +ℤ (actual -ℤ est) ≡ base +ℤ actual
regroup base est actual = omega int_laws

-- A granted reservation that Record settles within the same second by the delta to the actual
-- usage leaves the total as if the actual tokens alone had been booked, where neither step wraps
-- or clamps.
pub reserve-record :
    (limit est actual : ℤ) (t : ℕ) (w : Window) {w' : Window} {status : BudgetStatus}
    → IsReady limit est t w
    → reserve_window limit est (still t) w ≡ some (w', status, true)
    → IsSettling limit (actual -ℤ est) t w'
    → (w'' : Window) × (record_window limit (actual -ℤ est) t t w' ≡ some w'')
      × (w''.total_tokens ≡ (advance t w).total_tokens +ℤ actual)
reserve-record limit est actual t w {w'} r e s = (
  settlement limit (actual -ℤ est) (advance t w'),
  record_window-settlement limit (actual -ℤ est) t w' s,
  settlement_total limit (actual -ℤ est) (advance t w') (settled_total limit (actual -ℤ est) t w' s)
      ∙ rw
          (
            advance_still t w' (head_time-granted limit est t w r e),
            charged_total limit est t w r e,
          )
          (regroup (advance t w).total_tokens est actual),
)
