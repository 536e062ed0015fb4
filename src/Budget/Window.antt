-- ===== src/Budget/Window.antt =====
-- internal/budget/window.go: a ring of one-second buckets with a cached sum and a burst allowance.
-- A time is a number of nanoseconds since the zero time; each operation takes the reading of
-- nowFunc that it makes. `none` is a run-time panic.
pub mod Valid
pub mod Sums
pub mod Excess
pub mod Recent
pub mod Still
mod Tests
use koshi_runtime.Base.{
  ℕ, zero, suc, ◌+◌, ◌-◌, ◌/◌, ◌%◌, ◌^◌, min, Bool, true, false, List, Option, none, some, ltb, leb,
  if◌then◌else◌, length, get_or, set, replicate, map,
}
use koshi_runtime.Base.Int.{ℤ, pos, negsuc, add64, sub64, ltb_ℤ}

pub record Window : Type 0 where
  pub buckets : List ℤ
  pub num_buckets : ℕ
  pub head_idx : ℕ
  pub head_time : ℕ
  pub total_tokens : ℤ
  pub burst_max : ℤ
  pub burst_remaining : ℤ

-- time.Second
abbrev pub second : ℕ
second = 1_000_000_000

-- t.Truncate(time.Second)
abbrev pub truncate : ℕ → ℕ
truncate t = t - t % second

-- The most buckets that `make` takes: those of 8 bytes each in an address space of 2 ^ 48, as Go
-- has it on 64-bit Linux. That memory may run out before is not modelled.
abbrev pub max_buckets : ℕ
max_buckets = 2 ^ 45

-- `make` panics on a length that is negative or too large.
unfoldable pub new_window : ℤ → ℤ → ℕ → Option Window
new_window (negsuc _) burst_tokens t = none
new_window (pos n) burst_tokens t =
    if leb n max_buckets
    then some (record {
      buckets = replicate n (pos 0);
      num_buckets = n;
      head_idx = 0;
      head_time = truncate t;
      total_tokens = pos 0;
      burst_max = burst_tokens;
      burst_remaining = burst_tokens;
    })
    else none

-- One round of the loop of advance.
unfoldable pub expire_one : Window → Window
expire_one w =
    let i = (w.head_idx + 1) % w.num_buckets in
    record w {
      head_idx = i;
      total_tokens = sub64 w.total_tokens (get_or w.buckets i (pos 0));
      buckets = set w.buckets i (pos 0);
    }

unfoldable pub expire : ℕ → Window → Window
expire zero w = w
expire (suc n) w = expire n (expire_one w)

unfoldable pub expire_all : ℕ → Window → Window
expire_all now w = record w {
  buckets = map (λ _. pos 0) w.buckets;
  total_tokens = pos 0;
  head_idx = 0;
  head_time = now;
}

-- now.Sub(headTime) / time.Second, where Sub saturates at the largest Duration.
abbrev pub elapsed : ℕ → Window → ℕ
elapsed now w = min (now - w.head_time) (2 ^ 63 - 1) / second

unfoldable pub advance_to : ℕ → Window → Window
advance_to now w =
    if leb now w.head_time
    then w
    else (if leb w.num_buckets (elapsed now w)
        then expire_all now w
        else record (expire (elapsed now w) w) { head_time = now })

unfoldable pub advance : ℕ → Window → Window
advance t w = advance_to (truncate t) w

-- The two additions of Add, and its clamp.
unfoldable pub deposit : ℤ → Window → Window
deposit tokens w =
    let total = add64 w.total_tokens tokens in
    record w {
      buckets = set w.buckets w.head_idx (add64 (get_or w.buckets w.head_idx (pos 0)) tokens);
      total_tokens = if ltb_ℤ total (pos 0) then pos 0 else total;
    }

-- An index out of range panics.
unfoldable pub deposit_checked : ℤ → Window → Option Window
unfolding deposit
deposit_checked tokens w =
    if ltb w.head_idx (length w.buckets) then some (deposit tokens w) else none

unfoldable pub add : ℤ → ℕ → Window → Option Window
unfolding deposit_checked
add tokens t w = deposit_checked tokens (advance t w)

-- The total that Total reports of an advanced window.
abbrev pub reported : Window → ℤ
reported w = if ltb_ℤ w.total_tokens (pos 0) then pos 0 else w.total_tokens

unfoldable pub total : ℕ → Window → Window × ℤ
total t w = let w' = advance t w in (w', reported w')

-- With one caller at a time the compare-and-swap succeeds in the first round of its loop.
unfoldable pub consume_burst : ℤ → Window → Window × Bool
consume_burst tokens w =
    if ltb_ℤ w.burst_remaining tokens
    then (w, false)
    else (record w { burst_remaining = sub64 w.burst_remaining tokens }, true)

unfoldable pub replenish_burst : ℤ → Window → Window
replenish_burst tokens w =
    let new_val = add64 w.burst_remaining tokens in
    record w { burst_remaining = if ltb_ℤ w.burst_max new_val then w.burst_max else new_val }
