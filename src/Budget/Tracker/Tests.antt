-- ===== src/Budget/Tracker/Tests.antt =====
-- The tracker of internal/budget/tracker.go on one workload with a window of three seconds.
use mathlib.Core.Option.{some-injective, none-ne-some}
use mathlib.Core.Path.{subst}
use koshi_runtime.Base.{
  String, ℕ, ◌⊎◌, Bool, false, str_eq, eq_iff, Bool-cases, inl, inr, ◌≡◌, refl, [], ◌∷◌, some, true,
  arith, ◌≢◌, if◌then◌else◌, str_eq,
}
use koshi_runtime.Base.Dict.{lookup}
use koshi_runtime.Base.Int.{pos, ◌-ℤ◌, ◌+ℤ◌, ◌≤ℤ◌, ◌<ℤ◌, sub64, add64, wrap64}
use koshi_runtime.Budget.Window.{
  new_window, Window, advance, advance_to, expire, expire_one, deposit, deposit_checked, add, total,
  consume_burst,
}
use koshi_runtime.Budget.Window.Sums.{mass}
use koshi_runtime.Budget.Window.Valid.{IsValid}
use koshi_runtime.Budget.Tracker.{
  Tracker, WorkloadState, BudgetStatus, register, BudgetParams, Readings, reserve_window, settle,
  record_window,
}
use koshi_runtime.Budget.Tracker.Reserve.{
  IsReady, still, promise, allowance, reserve_window-promise, reserve_window_bounds,
}
use koshi_runtime.Budget.Tracker.Reconcile.{
  IsSettling, settlement, record_window-settlement, reserve-record,
}
use koshi_runtime.Budget.Tracker.Frame.{AllValid}
use koshi_runtime.Budget.Tracker.Register.{first_registered, register-lookup}

-- 30 tokens in the current second, 10 in the one before.
abbrev used : Window
used = record {
  buckets = pos 10 ∷ pos 30 ∷ pos 0 ∷ [];
  num_buckets = 3;
  head_idx = 1;
  head_time = 5_000_000_000;
  total_tokens = pos 40;
  burst_max = pos 20;
  burst_remaining = pos 20;
}

-- The second after it.
abbrev later : ℕ
later = 6_000_000_007

used-IsValid : IsValid used
used-IsValid = record { positive = omega arith; sized = refl; head_in = omega arith }

abbrev batch : String
batch = "batch"

abbrev agent : String
agent = "agent"

abbrev other : String
other = "new"

batch-agent : batch ≢ agent
batch-agent = λ e. let x = (eq_iff batch agent).1 e in cc

agent-other : agent ≢ other
agent-other = λ e. let x = (eq_iff agent other).1 e in cc

used-IsReady : IsReady (pos 100) (pos 75) later used
unfolding advance advance_to expire expire_one ◌+ℤ◌ mass sub64 wrap64 ◌-ℤ◌
used-IsReady = record {
  valid = used-IsValid;
  fits = omega arith;
  before = omega arith;
  after = omega arith;
  limit_ok = (omega arith, omega arith);
  burst_ok = (omega arith, omega arith);
}

reserve_window_bounds_example :
    (w' : Window) × (status : BudgetStatus) × (allowed : Bool) × (reserve_window
        (pos 100)
        (pos 75)
        (still later)
        used
      ≡ some (w', status, allowed))
    × (((allowed ≡ true)
          × ((advance later used).total_tokens +ℤ pos 75
              ≤ℤ allowance (pos 100) (advance later used))
          × (w'.total_tokens ≡ (advance later used).total_tokens +ℤ pos 75))
        ⊎ ((allowed ≡ false)
            × (allowance (pos 100) (advance later used)
                <ℤ (advance later used).total_tokens +ℤ pos 75)
            × (w' ≡ advance later used)))
    × (w'.burst_remaining ≤ℤ (advance later used).burst_remaining)
    × (pos 0 ≤ℤ w'.burst_remaining)
reserve_window_bounds_example = reserve_window_bounds (pos 100) (pos 75) later used used-IsReady

reserve_window-promise_example :
    reserve_window (pos 100) (pos 75) (still later) used
    ≡ some (promise (pos 100) (pos 75) (advance later used))
reserve_window-promise_example = reserve_window-promise (pos 100) (pos 75) later used used-IsReady

-- What the reservation leaves: the excess over the limit is taken from the burst.
abbrev booked : Window
booked = record {
  buckets = pos 10 ∷ pos 30 ∷ pos 75 ∷ [];
  num_buckets = 3;
  head_idx = 2;
  head_time = 6_000_000_000;
  total_tokens = pos 115;
  burst_max = pos 20;
  burst_remaining = pos 5;
}

abbrev booked_status : BudgetStatus
booked_status = record {
  window_tokens_used = pos 115;
  window_tokens_limit = pos 100;
  burst_remaining = pos 5;
}

used-reserve :
    reserve_window (pos 100) (pos 75) (still later) used ≡ some (booked, booked_status, true)
unfolding reserve_window settle add deposit_checked deposit total advance advance_to expire
    expire_one consume_burst add64 sub64 wrap64 ◌+ℤ◌ ◌-ℤ◌
used-reserve = refl

booked-IsSettling : IsSettling (pos 100) (pos 20 -ℤ pos 75) later booked
unfolding advance advance_to expire expire_one ◌+ℤ◌ mass sub64 wrap64 ◌-ℤ◌
booked-IsSettling = record {
  valid = record { positive = omega arith; sized = refl; head_in = omega arith };
  fits = omega arith;
  after = omega arith;
  limit_ok = (omega arith, omega arith);
  burst_ok = (omega arith, omega arith);
}

reserve-record_example :
    (w'' : Window) × (record_window (pos 100) (pos 20 -ℤ pos 75) later later booked ≡ some w'')
    × (w''.total_tokens ≡ (advance later used).total_tokens +ℤ pos 20)
reserve-record_example =
    reserve-record (pos 100) (pos 75) (pos 20) later used used-IsReady used-reserve
      booked-IsSettling

record_window-settlement_example :
    record_window (pos 100) (pos 20 -ℤ pos 75) later later booked
    ≡ some (settlement (pos 100) (pos 20 -ℤ pos 75) (advance later booked))
record_window-settlement_example =
    record_window-settlement (pos 100) (pos 20 -ℤ pos 75) later booked booked-IsSettling

abbrev state : WorkloadState
state = record { window = used; window_seconds = pos 3; limit_tokens = pos 100 }

abbrev tracker : Tracker
tracker = (agent, state) ∷ []

tracker-AllValid : AllValid tracker
unfolding lookup
tracker-AllValid k ws e = elim (Bool-cases (str_eq agent k)) [
  | inl m ↦ subst (λ x. IsValid x.window) (some-injective state ws (rw m at e)) used-IsValid
  | inr m ↦ absurd (none-ne-some ws (rw m at e))
]

-- The clock moves on between the steps.
abbrev moving : Readings
moving = record {
  at_add = later;
  at_total = 7_500_000_000;
  at_undo = 8_000_000_000;
  at_after = 9_000_000_000;
}

abbrev params : BudgetParams
params = record { window_seconds = pos 60; limit_tokens = pos 5; burst_tokens = pos 0 }

-- The first registration wins.
register-lookup_example :
    (t' : Tracker) × (w : Window) × (register agent params later tracker ≡ some t')
    × (new_window (pos 60) (pos 0) later ≡ some w)
    × AllValid t'
    × (lookup agent t' ≡ (
        if str_eq agent agent
        then some (
            first_registered
              (lookup agent tracker)
              (record { window = w; window_seconds = pos 60; limit_tokens = pos 5 }))
        else lookup agent tracker))
register-lookup_example =
    register-lookup agent agent params 60 later tracker refl (omega arith) (omega arith)
      tracker-AllValid
