-- ===== src/Budget/Burst/Linear.antt =====
-- Concurrent calls of internal/budget/window.go on the burst, against the same calls one by one.
use koshi_runtime.Base.{
  ℕ, ◌≡◌, refl, sym, ◌∙◌, Bool, true, false, Bool-cases, Option-cases, inl, inr, List, [], ◌∷◌,
  ◌++◌, get_elem?, arith,
}
use mathlib.Core.Path.{subst}
use koshi_runtime.Base.Int.{ℤ, sub64, ltb_ℤ, eq_of_parts}
use koshi_runtime.Budget.Burst.{
  Call, consume, replenish, Thread, looping, loaded, returned, unchanged, new_val, step_thread,
  Shared, step, run, outcome, outcome_at, history,
}
use koshi_runtime.Budget.Burst.Threads.{All, set-All}
use koshi_runtime.Budget.Window.{Window, consume_burst, replenish_burst}

-- A call made at once.
abbrev pub make_call : Call → Window → Window × Bool
make_call (consume tokens) w = consume_burst tokens w
make_call (replenish tokens) w = (replenish_burst tokens w, true)

-- The calls of a history one by one, on the window `w`: they give these results, and `w'` at last.
pub data Replays : List (Call × Bool) → Window → Window → Type 0 where
  no_call : {w : Window} → Replays [] w w
  next_call :
      {w w' w'' : Window} {rest : List (Call × Bool)} (c : Call) (r : Bool)
      → make_call c w ≡ (w', r)
      → Replays rest w' w''
      → Replays ((c, r) ∷ rest) w w''

Replays-after :
    {h h' : List (Call × Bool)} {w w' w'' : Window}
    → Replays h w w'
    → Replays h' w' w''
    → Replays (h ++ h') w w''
Replays-after no_call more = more
Replays-after (next_call c r made rest) more = next_call c r made (Replays-after rest more)

-- A consumer compares only where it saw enough.
abbrev pub IsSane : Thread → Type 0
IsSane (looping c) = Unit
IsSane (loaded (consume tokens) cur) = ltb_ℤ cur tokens ≡ false
IsSane (loaded (replenish tokens) cur) = Unit
IsSane (returned c r) = Unit

abbrev pub AllSane : List Thread → Type 0
AllSane ts = All IsSane ts

-- The window of which the burst is shared.
abbrev pub with_burst : Window → ℤ → Window
with_burst w b = record w { burst_remaining = b }

pub unchanged_eq : (a b : ℤ) → unchanged a b ≡ true → a ≡ b
unchanged_eq a b e = eq_of_parts a b (ground arith)

-- A step of a thread keeps it sane, and returns from a call where the call is made.
step_thread-Replays :
    (w : Window) (b : ℤ) (t : Thread)
    → IsSane t
    → IsSane (step_thread w.burst_max b t).1
      × Replays
          (outcome t (step_thread w.burst_max b t).1)
          (with_burst w b)
          (with_burst w (step_thread w.burst_max b t).0)
unfolding step_thread consume_burst replenish_burst
step_thread-Replays w b (looping (consume n)) sane = elim (Bool-cases (ltb_ℤ b n)) [
  | inl e ↦
      rw (step_thread, e) (tt, next_call (consume n) false (rw (consume_burst, e) refl) no_call)
  | inr e ↦ rw (step_thread, e) (e, no_call)
]
step_thread-Replays w b (looping (replenish n)) sane = (tt, no_call)
step_thread-Replays w b (loaded (consume n) cur) sane = elim (Bool-cases (unchanged b cur)) [
  | inl e ↦
      rw (step_thread, e)
        (
          tt,
          next_call (consume n) true
              (subst
                (λ x. make_call (consume n) (with_burst w x) ≡ (with_burst w (sub64 cur n), true))
                (sym (unchanged_eq b cur e)) (rw (consume_burst, sane) refl))
              no_call,
        )
  | inr e ↦ rw (step_thread, e) (tt, no_call)
]
step_thread-Replays w b (loaded (replenish n) cur) sane = elim (Bool-cases (unchanged b cur)) [
  | inl e ↦
      rw (step_thread, e)
        (
          tt,
          next_call (replenish n) true
              (subst
                (λ x.
                  make_call (replenish n) (with_burst w x)
                  ≡ (with_burst w (new_val w.burst_max cur n), true))
                (sym (unchanged_eq b cur e)) refl)
              no_call,
        )
  | inr e ↦ rw (step_thread, e) (tt, no_call)
]
step_thread-Replays w b (returned c r) sane = (tt, no_call)

step-Replays :
    (w : Window) (i : ℕ) (s : Shared)
    → w.burst_max ≡ s.burst_max
    → AllSane s.threads
    → AllSane (step i s).threads
      × ((step i s).burst_max ≡ s.burst_max)
      × Replays (outcome_at i s) (with_burst w s.burst) (with_burst w (step i s).burst)
unfolding step outcome_at
step-Replays w i s m all = elim (Option-cases (get_elem? s.threads i)) [
  | inl e ↦ rw (step, outcome_at, e) (all, refl, no_call)
  | inr (t, e) ↦
      let (sane, made) = step_thread-Replays w s.burst t (all i t e) in
      rw (step, outcome_at, e, sym m)
        (set-All IsSane s.threads i (step_thread w.burst_max s.burst t).1 sane all, refl, made)
]

-- However the atomic operations of concurrent calls of ConsumeBurst and ReplenishBurst
-- interleave, making the calls one by one in the order of their returns gives each the same
-- result and leads to the same burst, where a consumer that is about to compare saw enough.
pub run-Replays :
    (w : Window) (schedule : List ℕ) (s : Shared)
    → w.burst_max ≡ s.burst_max
    → AllSane s.threads
    → Replays (history schedule s) (with_burst w s.burst) (with_burst w (run schedule s).burst)
unfolding run history
run-Replays w [] s m all = no_call
run-Replays w (i ∷ schedule) s m all =
    let (all', m', made) = step-Replays w i s m all in
    Replays-after made (run-Replays w schedule (step i s) (m ∙ sym m') all')
