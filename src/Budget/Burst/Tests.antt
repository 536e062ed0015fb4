-- ===== src/Budget/Burst/Tests.antt =====
-- Three concurrent callers on a burst of 10, of internal/budget/window.go.
use koshi_runtime.Base.{ℕ, zero, suc, ◌≡◌, refl, true, List, [], ◌∷◌, some, get_elem?, arith}
use mathlib.Core.Option.{none-ne-some, some-injective}
use mathlib.Core.Path.{subst}
use koshi_runtime.Base.Int.{pos, add64, sub64, wrap64, ◌+ℤ◌, ◌-ℤ◌}
use koshi_runtime.Budget.Burst.{
  consume, replenish, Thread, looping, step_thread, Shared, step, run, outcome_at, history,
}
use koshi_runtime.Budget.Burst.Bounds.{IsCareful, InRange, run-InRange}
use koshi_runtime.Budget.Burst.Linear.{Replays, IsSane, with_burst, run-Replays}
use koshi_runtime.Budget.Burst.Threads.{All, HasReturned, run_alone}
use koshi_runtime.Budget.Window.{Window}

abbrev callers : List Thread
callers = looping (consume (pos 8)) ∷ looping (consume (pos 6)) ∷ looping (replenish (pos 5)) ∷ []

abbrev shared : Shared
shared = record { burst_max = pos 10; burst = pos 10; threads = callers }

-- Both consumers load 10; the first takes 8, so the second has to look again.
abbrev schedule : List ℕ
schedule = 0 ∷ 1 ∷ 0 ∷ 1 ∷ 2 ∷ 2 ∷ 1 ∷ 1 ∷ []

abbrev window : Window
window = record {
  buckets = pos 0 ∷ [];
  num_buckets = 1;
  head_idx = 0;
  head_time = 0;
  total_tokens = pos 0;
  burst_max = pos 10;
  burst_remaining = pos 10;
}

returns :
    history schedule shared
    ≡ (consume (pos 8), true) ∷ (replenish (pos 5), true) ∷ (consume (pos 6), true) ∷ []
unfolding history outcome_at step step_thread add64 sub64 wrap64 ◌+ℤ◌ ◌-ℤ◌
returns = refl

sane : All IsSane callers
sane zero t e = subst IsSane (some-injective (looping (consume (pos 8))) t e) tt
sane (suc zero) t e = subst IsSane (some-injective (looping (consume (pos 6))) t e) tt
sane (suc (suc zero)) t e = subst IsSane (some-injective (looping (replenish (pos 5))) t e) tt
sane (suc (suc (suc i))) t e = absurd (none-ne-some t e)

careful : All IsCareful callers
careful zero t e =
    subst IsCareful (some-injective (looping (consume (pos 8))) t e) (omega arith, omega arith)
careful (suc zero) t e =
    subst IsCareful (some-injective (looping (consume (pos 6))) t e) (omega arith, omega arith)
careful (suc (suc zero)) t e =
    subst IsCareful (some-injective (looping (replenish (pos 5))) t e) (omega arith, omega arith)
careful (suc (suc (suc i))) t e = absurd (none-ne-some t e)

run-Replays_example :
    Replays
      (history schedule shared)
      (with_burst window (pos 10))
      (with_burst window (run schedule shared).burst)
run-Replays_example = run-Replays window schedule shared refl sane

run-InRange_example : InRange (run schedule shared).burst_max (run schedule shared).burst
run-InRange_example = run-InRange schedule shared careful (omega arith, omega arith, omega arith)

run_alone_example :
    (t : Thread) × (get_elem? (run (1 ∷ 1 ∷ 1 ∷ []) shared).threads 1 ≡ some t) × HasReturned t
run_alone_example = run_alone 1 shared (looping (consume (pos 6))) refl
