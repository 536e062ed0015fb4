-- ===== src/Budget/Burst.antt =====
-- ConsumeBurst and ReplenishBurst of internal/budget/window.go with callers at the same time: each
-- atomic operation of a caller, a load or a compare-and-swap, is a step of its thread, and a
-- schedule says whose turn it is. A call that Window.antt makes at once takes several steps here.
pub mod Threads
pub mod Linear
pub mod Bounds
mod Tests
use koshi_runtime.Base.{
  ℕ, Bool, true, false, ◌&&◌, List, [], ◌∷◌, ◌++◌, none, some, get_elem?, set, if◌then◌else◌,
}
use koshi_runtime.Base.Int.{ℤ, add64, sub64, ltb_ℤ, leb_ℤ}
use koshi_runtime.Budget.Window.{Window, consume_burst, replenish_burst}

pub data Call : Type 0 where
  consume replenish : ℤ → Call

-- A thread at the top of its loop, behind its load with the value `cur`, and behind its return.
pub data Thread : Type 0 where
  looping : Call → Thread
  loaded : Call → ℤ → Thread
  returned : Call → Bool → Thread

-- Whether a compare-and-swap finds the value that it expects.
abbrev pub unchanged : ℤ → ℤ → Bool
unchanged a b = leb_ℤ a b && leb_ℤ b a

-- The value that ReplenishBurst writes.
abbrev pub new_val : ℤ → ℤ → ℤ → ℤ
new_val burst_max cur tokens =
    let n = add64 cur tokens in if ltb_ℤ burst_max n then burst_max else n

-- One atomic operation of a thread on burstRemaining, with what the thread does up to the next.
unfoldable pub step_thread : ℤ → ℤ → Thread → ℤ × Thread
step_thread burst_max burst (looping (consume tokens)) =
    if ltb_ℤ burst tokens
    then (burst, returned (consume tokens) false)
    else (burst, loaded (consume tokens) burst)
step_thread burst_max burst (looping (replenish tokens)) = (burst, loaded (replenish tokens) burst)
step_thread burst_max burst (loaded (consume tokens) cur) =
    if unchanged burst cur
    then (sub64 cur tokens, returned (consume tokens) true)
    else (burst, looping (consume tokens))
step_thread burst_max burst (loaded (replenish tokens) cur) =
    if unchanged burst cur
    then (new_val burst_max cur tokens, returned (replenish tokens) true)
    else (burst, looping (replenish tokens))
step_thread burst_max burst (returned c r) = (burst, returned c r)

-- burstMax and burstRemaining, and the threads that call.
pub record Shared : Type 0 where
  pub burst_max : ℤ
  pub burst : ℤ
  pub threads : List Thread

unfoldable pub step : ℕ → Shared → Shared
unfolding step_thread
step i s = elim (get_elem? s.threads i) [
  | none ↦ s
  | some t ↦
      let (burst, t') = step_thread s.burst_max s.burst t in
      record s { burst = burst; threads = set s.threads i t' }
]

unfoldable pub run : List ℕ → Shared → Shared
unfolding step
run [] s = s
run (i ∷ schedule) s = run schedule (step i s)

-- The call that a step returns from, with its result.
abbrev pub outcome : Thread → Thread → List (Call × Bool)
outcome (returned c r) t = []
outcome (looping c) (returned d r) = (d, r) ∷ []
outcome (looping c) (looping d) = []
outcome (looping c) (loaded d cur) = []
outcome (loaded c cur) (returned d r) = (d, r) ∷ []
outcome (loaded c cur) (looping d) = []
outcome (loaded c cur) (loaded d cur') = []

unfoldable pub outcome_at : ℕ → Shared → List (Call × Bool)
unfolding step_thread
outcome_at i s = elim (get_elem? s.threads i) [
  | none ↦ []
  | some t ↦ outcome t (step_thread s.burst_max s.burst t).1
]

-- The calls that return in the course of a schedule, in the order of their returns.
unfoldable pub history : List ℕ → Shared → List (Call × Bool)
unfolding outcome_at step
history [] s = []
history (i ∷ schedule) s = outcome_at i s ++ history schedule (step i s)
