-- ===== src/Budget/Contention.antt =====
-- Reserve of internal/budget/tracker.go with callers at the same time on the window of one workload:
-- what holds the window's mutex is one step of a thread, and so is ConsumeBurst, of which
-- Burst.antt has the single operations. A schedule says whose turn it is. What a call reports of
-- the window beside its answer is left out.
pub mod Sums
pub mod Moves
pub mod Cover
pub mod Order
mod Tests
use koshi_runtime.Base.{
  ℕ, Bool, true, false, List, [], ◌∷◌, Option, none, some, get_elem?, set, if◌then◌else◌,
}
use koshi_runtime.Base.Int.{ℤ, pos, sub64, leb_ℤ}
use koshi_runtime.Budget.Window.{Window, add, total, consume_burst}

-- A thread before its Add, before its Total, before its ConsumeBurst of an overage, before the Add
-- that takes the tokens back, and behind its answer.
pub data Thread : Type 0 where
  starting added : ℤ → Thread
  over_limit : ℤ → ℤ → Thread
  short : ℤ → Thread
  answered : ℤ → Bool → Thread

abbrev pub tested : ℤ → ℤ → Window × ℤ → Window × Thread
tested limit est (w, used) =
    if leb_ℤ used limit then (w, answered est true) else (w, over_limit est (sub64 used limit))

abbrev pub paid : ℤ → Window × Bool → Window × Thread
paid est (w, consumed) = if consumed then (w, answered est true) else (w, short est)

abbrev pub moved : Thread → Option Window → Option (Window × Thread)
moved t none = none
moved t (some w) = some (w, t)

-- `none` is a run-time panic.
unfoldable pub step_thread : ℕ → ℤ → Window → Thread → Option (Window × Thread)
step_thread now limit w (starting est) = moved (added est) (add est now w)
step_thread now limit w (added est) = some (tested limit est (total now w))
step_thread now limit w (over_limit est overage) = some (paid est (consume_burst overage w))
step_thread now limit w (short est) = moved (answered est false) (add (sub64 (pos 0) est) now w)
step_thread now limit w (answered est allowed) = some (w, answered est allowed)

pub record Calls : Type 0 where
  pub limit : ℤ
  pub window : Window
  pub threads : List Thread

abbrev pub put : ℕ → Calls → Option (Window × Thread) → Option Calls
put i s none = none
put i s (some (w, t)) = some (record s { window = w; threads = set s.threads i t })

unfoldable pub step : ℕ → ℕ → Calls → Option Calls
unfolding step_thread
step now i s = elim (get_elem? s.threads i) [
  | none ↦ some s
  | some t ↦ put i s (step_thread now s.limit s.window t)
]

abbrev pub and_then : Option Calls → (Calls → Option Calls) → Option Calls
and_then none f = none
and_then (some s) f = f s

unfoldable pub run : ℕ → List ℕ → Calls → Option Calls
unfolding step
run now [] s = some s
run now (i ∷ schedule) s = and_then (step now i s) (run now schedule)
