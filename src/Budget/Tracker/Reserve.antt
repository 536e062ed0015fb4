-- ===== src/Budget/Tracker/Reserve.antt =====
-- Reserve of internal/budget/tracker.go, within one second of the clock.
use koshi_runtime.Base.{
  ℕ, ◌+◌, ◌*◌, ◌^◌, ◌≤◌, ◌<◌, ◌≡◌, refl, ap, ◌∙◌, ◌⊎◌, inl, inr, true, false, Bool, some,
  if◌then◌else◌, arith,
}
use koshi_runtime.Base.Int.{
  ℤ, pos, magnitude, ◌+ℤ◌, ◌-ℤ◌, ◌≤ℤ◌, ◌<ℤ◌, leb_ℤ, sub64, IsAmount, sub64_amounts, sub-IsAmount,
  lt_or_le_ℤ, magnitude-add, int_laws,
}
use koshi_runtime.Budget.Window.{Window, advance, deposit, total, consume_burst, reported}
use koshi_runtime.Budget.Window.Excess.{load, Fits, advance-excess}
use koshi_runtime.Budget.Window.Still.{
  advance-deposit, advance_still, head_time-advance, deposit-total, deposit-undo, clamp_id,
}
use koshi_runtime.Budget.Window.Valid.{IsValid, advance-IsValid, deposit-IsValid, add-some}
use koshi_runtime.Budget.Tracker.{Readings, BudgetStatus, status_of, deny, settle, reserve_window}

-- Every reading falls at one time.
abbrev pub still : ℕ → Readings
still t = record { at_add = t; at_total = t; at_undo = t; at_after = t }

-- What a reservation of `est` tokens finds: a valid window whose sums do not wrap, a total that
-- is not negative with the tokens or without, and a limit and a burst that are not negative.
pub record IsReady (limit est : ℤ) (t : ℕ) (w : Window) : Type 0 where
  pub valid : IsValid w
  pub fits : load w + 4 * magnitude est < 2 ^ 63
  pub before : pos 0 ≤ℤ (advance t w).total_tokens
  pub after : pos 0 ≤ℤ (advance t w).total_tokens +ℤ est
  pub limit_ok : IsAmount limit
  pub burst_ok : IsAmount (advance t w).burst_remaining

-- The promise of Reserve, in whole numbers: within the limit the tokens are booked; above it they
-- are booked if the burst covers all that lies above the limit, which it pays; else nothing is.
abbrev pub promise : ℤ → ℤ → Window → Window × BudgetStatus × Bool
promise limit est w =
    let used = w.total_tokens +ℤ est in
    let booked = deposit est w in
    if leb_ℤ used limit
    then (booked, status_of w used limit, true)
    else if leb_ℤ (used -ℤ limit) w.burst_remaining
    then (
      record booked { burst_remaining = w.burst_remaining -ℤ (used -ℤ limit) },
      record {
        window_tokens_used = used;
        window_tokens_limit = limit;
        burst_remaining = w.burst_remaining -ℤ (used -ℤ limit);
      },
      true,
    )
    else (w, status_of w w.total_tokens limit, false)

module _ (limit est : ℤ) (t : ℕ) (w : Window) (r : IsReady limit est t w) where
  load-advance : load (advance t w) ≤ load w
  load-advance = (advance-excess t w r.valid (omega arith)).1

  advance-Fits : Fits est (advance t w)
  advance-Fits = omega (arith, load-advance)

  booked_total : (deposit est (advance t w)).total_tokens ≡ (advance t w).total_tokens +ℤ est
  booked_total = deposit-total est (advance t w) advance-Fits r.after

  booked_reported : reported (deposit est (advance t w)) ≡ (advance t w).total_tokens +ℤ est
  booked_reported = rw booked_total (clamp_id ((advance t w).total_tokens +ℤ est) r.after)

  booked_still : advance t (deposit est (advance t w)) ≡ deposit est (advance t w)
  booked_still = advance-deposit est t (advance t w) (head_time-advance t w)

  undone : deposit (sub64 (pos 0) est) (deposit est (advance t w)) ≡ advance t w
  undone =
      deposit-undo est (advance t w) (advance-IsValid t w r.valid) advance-Fits r.before r.after

  burst_booked : (deposit est (advance t w)).burst_remaining ≡ (advance t w).burst_remaining
  unfolding deposit
  burst_booked = refl

  used_ok : IsAmount ((advance t w).total_tokens +ℤ est)
  used_ok =
      (r.after, omega (arith, r.fits, load-advance, magnitude-add (advance t w).total_tokens est))

  denied :
      deny limit est (still t) (deposit est (advance t w))
      ≡ some (advance t w, status_of (advance t w) (advance t w).total_tokens limit, false)
  unfolding deny total
  denied = rw (
    add-some (sub64 (pos 0) est) t (deposit est (advance t w))
        (deposit-IsValid est _ (advance-IsValid t w r.valid)),
    booked_still,
    undone,
    advance_still t (advance t w) (head_time-advance t w),
    clamp_id (advance t w).total_tokens r.before,
  )

  settled :
      settle limit est (still t) (deposit est (advance t w), (advance t w).total_tokens +ℤ est)
      ≡ some (promise limit est (advance t w))
  unfolding settle consume_burst deposit
  settled = elim (lt_or_le_ℤ limit used) [
    | inr (_, within, _) ↦ rw (within, burst_booked)
    | inl (_, over, more) ↦
        rw (over, sub64_amounts used limit used_ok r.limit_ok, burst_booked)
          (elim (lt_or_le_ℤ burst (used -ℤ limit)) [
            | inl (short, lacks, _) ↦ rw (short, lacks) denied
            | inr (enough, covers, h) ↦
                rw (enough, covers, sub64_amounts burst (used -ℤ limit) r.burst_ok (above more))
          ])
  ]
    where
      used : ℤ
      used = (advance t w).total_tokens +ℤ est

      burst : ℤ
      burst = (advance t w).burst_remaining

      above : limit <ℤ used → IsAmount (used -ℤ limit)
      above more = sub-IsAmount used limit used_ok r.limit_ok (omega arith)

  -- Within one second of the clock, on a valid window where nothing wraps, whose total is not
  -- negative with the tokens or without, and whose limit and burst are amounts, Reserve, written
  -- with int64 and with the undo of a refused reservation, is the specification `promise` in
  -- whole numbers, on every branch.
  pub reserve_window-promise :
      reserve_window limit est (still t) w ≡ some (promise limit est (advance t w))
  unfolding reserve_window total
  reserve_window-promise =
      rw (add-some est t w r.valid, booked_still)
        (ap (λ u. settle limit est (still t) (deposit est (advance t w), u)) booked_reported
          ∙ settled)

-- What a window may be charged with at most: its limit and what is left of its burst.
abbrev pub allowance : ℤ → Window → ℤ
allowance limit w = limit +ℤ w.burst_remaining

promise_bounds :
    (limit est : ℤ) (w : Window)
    → (deposit est w).total_tokens ≡ w.total_tokens +ℤ est
    → (deposit est w).burst_remaining ≡ w.burst_remaining
    → pos 0 ≤ℤ w.burst_remaining
    → let (w', status, allowed) = promise limit est w in
      (((allowed ≡ true)
          × (w.total_tokens +ℤ est ≤ℤ allowance limit w)
          × (w'.total_tokens ≡ w.total_tokens +ℤ est))
        ⊎ ((allowed ≡ false) × (allowance limit w <ℤ w.total_tokens +ℤ est) × (w' ≡ w)))
      × (w'.burst_remaining ≤ℤ w.burst_remaining)
      × (pos 0 ≤ℤ w'.burst_remaining)
promise_bounds limit est w e1 e2 h = elim (lt_or_le_ℤ limit used) [
  | inr (_, within, le) ↦
      rw within (inl (refl, omega (int_laws, le), e1), rw e2 (omega arith), rw e2 h)
  | inl (_, over, more) ↦ rw over (elim (lt_or_le_ℤ burst (used -ℤ limit)) [
    | inl (_, lacks, short) ↦ rw lacks (inr (refl, omega (int_laws, short), refl), omega arith, h)
    | inr (_, covers, enough) ↦
        rw covers (
          inl (refl, omega (int_laws, enough), e1),
          omega (int_laws, more),
          omega (int_laws, enough),
        )
  ])
]
  where
    used : ℤ
    used = w.total_tokens +ℤ est

    burst : ℤ
    burst = w.burst_remaining

-- Within one second of the clock, on a valid window where nothing wraps, whose total is not
-- negative with the tokens or without, and whose limit and burst are amounts, Reserve returns:
-- it allows exactly where the total with the tokens is within limit and burst and then books
-- them, else it refuses and leaves the window as it was; burst is only spent and never below
-- zero.
pub reserve_window_bounds :
    (limit est : ℤ) (t : ℕ) (w : Window)
    → IsReady limit est t w
    → (w' : Window) × (status : BudgetStatus) × (allowed : Bool) × (reserve_window limit est
          (still t)
          w
        ≡ some (w', status, allowed))
      × (((allowed ≡ true)
            × ((advance t w).total_tokens +ℤ est ≤ℤ allowance limit (advance t w))
            × (w'.total_tokens ≡ (advance t w).total_tokens +ℤ est))
          ⊎ ((allowed ≡ false)
              × (allowance limit (advance t w) <ℤ (advance t w).total_tokens +ℤ est)
              × (w' ≡ advance t w)))
      × (w'.burst_remaining ≤ℤ (advance t w).burst_remaining)
      × (pos 0 ≤ℤ w'.burst_remaining)
reserve_window_bounds limit est t w r =
    let (w', status, allowed) = promise limit est (advance t w) in
    let (answer, spent, left) =
      promise_bounds limit est (advance t w) (booked_total limit est t w r)
        (burst_booked limit est t w r) r.burst_ok.0 in
    (w', status, allowed, reserve_window-promise limit est t w r, answer, spent, left)
