-- ===== src/Budget/Contention/Tests.antt =====
-- Three concurrent calls of Reserve of internal/budget/tracker.go on a window that 20 tokens are
-- in, with a limit of 100 and a burst of 50.
use koshi_runtime.Base.{
  ℕ, zero, suc, ◌+◌, ◌≤◌, ◌≡◌, refl, sym, false, true, ◌⊎◌, List, [], ◌∷◌, some, arith,
}
use mathlib.Core.Option.{none-ne-some, some-injective}
use koshi_runtime.Base.Int.{pos, add64, sub64, wrap64, ◌+ℤ◌, ◌-ℤ◌}
use koshi_runtime.Budget.Window.{
  Window, add, total, consume_burst, deposit, deposit_checked, advance, advance_to,
}
use koshi_runtime.Budget.Contention.{
  Thread, starting, short, answered, Calls, step_thread, step, run,
}
use koshi_runtime.Budget.Window.Valid.{IsValid}
use koshi_runtime.Budget.Contention.Order.{two, both_refused}
use koshi_runtime.Budget.Contention.Sums.{sum, held, asked, granted}
use koshi_runtime.Budget.Contention.Cover.{All, IsStarting, run_never_over_admits}

abbrev callers : List Thread
callers = starting (pos 60) ∷ starting (pos 60) ∷ starting (pos 30) ∷ []

abbrev window : Window
window = record {
  buckets = pos 0 ∷ pos 20 ∷ [];
  num_buckets = 2;
  head_idx = 0;
  head_time = 0;
  total_tokens = pos 20;
  burst_max = pos 50;
  burst_remaining = pos 50;
}

abbrev calls : Calls
calls = record { limit = pos 100; window = window; threads = callers }

-- The first two add before either reads the total; the burst covers the overage of the first.
abbrev schedule : List ℕ
schedule = 0 ∷ 1 ∷ 0 ∷ 1 ∷ 0 ∷ 1 ∷ []

left_over :
    run 5 schedule calls
    ≡ some (record {
      limit = pos 100;
      window = record window {
        buckets = pos 120 ∷ pos 20 ∷ [];
        total_tokens = pos 140;
        burst_remaining = pos 10;
      };
      threads = answered (pos 60) true ∷ short (pos 60) ∷ starting (pos 30) ∷ [];
    })
unfolding run step step_thread add deposit deposit_checked advance advance_to total consume_burst
    add64 sub64 wrap64 ◌+ℤ◌ ◌-ℤ◌
left_over = refl

window-IsValid : IsValid window
window-IsValid = record { positive = omega arith; sized = refl; head_in = omega arith }

All-IsStarting : All IsStarting callers
All-IsStarting zero t e = (pos 60, sym (some-injective (starting (pos 60)) t e), omega arith)
All-IsStarting (suc zero) t e = (pos 60, sym (some-injective (starting (pos 60)) t e), omega arith)
All-IsStarting (suc (suc zero)) t e =
    (pos 30, sym (some-injective (starting (pos 30)) t e), omega arith)
All-IsStarting (suc (suc (suc i))) t e = absurd (none-ne-some t e)

run_never_over_admits_example :
    (s' : Calls) × (left : ℕ) × (spent : ℕ) × (run 5 schedule calls ≡ some s')
    × (s'.window.total_tokens ≡ pos (20 + sum held s'.threads))
    × (sum asked s'.threads ≡ 150)
    × (s'.window.burst_remaining ≡ pos left)
    × (left + spent ≡ 50)
    × ((sum granted s'.threads ≡ 0) ⊎ (20 + sum granted s'.threads ≤ 100 + spent))
run_never_over_admits_example =
    run_never_over_admits 5 20 100 50 schedule calls refl window-IsValid (omega arith) refl refl
      All-IsStarting (omega arith) (omega arith)

-- 60 tokens and 60 more, where the limit has room for 80.
abbrev without_burst : Window
without_burst = record window { burst_remaining = pos 0 }

both_refused_example :
    let s = two 5 100 without_burst (starting (pos 60)) (starting (pos 60)) in
    ((w' : Window) × (run 5 (0 ∷ 1 ∷ 0 ∷ 1 ∷ 0 ∷ 1 ∷ 0 ∷ 1 ∷ []) s
        ≡ some (two 5 100 w' (answered (pos 60) false) (answered (pos 60) false))))
    × ((w' : Window) × (run 5 (0 ∷ 0 ∷ 0 ∷ 0 ∷ 1 ∷ 1 ∷ 1 ∷ 1 ∷ []) s
          ≡ some (two 5 100 w' (answered (pos 60) true) (answered (pos 60) false))))
    × ((w' : Window) × (run 5 (1 ∷ 1 ∷ 1 ∷ 1 ∷ 0 ∷ 0 ∷ 0 ∷ 0 ∷ []) s
          ≡ some (two 5 100 w' (answered (pos 60) false) (answered (pos 60) true))))
both_refused_example =
    both_refused 5 100 20 60 60 without_burst
      (record { positive = omega arith; sized = refl; head_in = omega arith }) (omega arith) refl
      refl (omega arith) (omega arith) (omega arith) (omega arith)
