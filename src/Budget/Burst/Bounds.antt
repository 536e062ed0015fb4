-- ===== src/Budget/Burst/Bounds.antt =====
-- The range of the burst of internal/budget/window.go under concurrent calls.
use koshi_runtime.Base.{
  ℕ, ◌^◌, ◌<◌, ◌≡◌, sym, false, Bool-cases, Option-cases, inl, inr, List, [], ◌∷◌, get_elem?,
  if◌then◌else◌, arith,
}
use mathlib.Core.Path.{subst}
use koshi_runtime.Base.Int.{
  ℤ, pos, pos_part, ◌+ℤ◌, ◌-ℤ◌, ◌≤ℤ◌, sub64, ltb_ℤ, add64_small, sub64_amounts, int_laws, +ℤ_parts,
  -ℤ_parts, parts,
}
use koshi_runtime.Budget.Burst.{
  Call, consume, replenish, Thread, looping, loaded, returned, unchanged, new_val, step_thread,
  Shared, step, run,
}
use koshi_runtime.Budget.Burst.Linear.{unchanged_eq}
use koshi_runtime.Budget.Burst.Threads.{All, set-All}

abbrev amount_of : Call → ℤ
amount_of (consume n) = n
amount_of (replenish n) = n

-- A number from 0 to 2 ^ 62.
abbrev pub IsSmall : ℤ → Type 0
IsSmall n = (pos 0 ≤ℤ n) × (pos_part n < 2 ^ 62)

-- A thread whose amount is small; a consumer compares only where it saw enough.
abbrev pub IsCareful : Thread → Type 0
IsCareful (looping c) = IsSmall (amount_of c)
IsCareful (loaded (consume n) cur) = IsSmall n × (ltb_ℤ cur n ≡ false)
IsCareful (loaded (replenish n) cur) = IsSmall n
IsCareful (returned c r) = Unit

-- Not below zero, and not above a maximum that is small.
abbrev pub InRange : ℤ → ℤ → Type 0
InRange m b = (pos 0 ≤ℤ b) × (b ≤ℤ m) × (pos_part m < 2 ^ 62)

taken-InRange : (m b n : ℤ) → InRange m b → IsSmall n → ltb_ℤ b n ≡ false → InRange m (sub64 b n)
taken-InRange m b n r s e =
    subst (InRange m) (sym (sub64_amounts b n (omega int_laws) (omega int_laws)))
      (ground (arith, -ℤ_parts b n, parts (b -ℤ n)))

given-InRange : (m b n : ℤ) → InRange m b → IsSmall n → InRange m (new_val m b n)
given-InRange m b n r s =
    subst (λ x. InRange m (if ltb_ℤ m x then m else x)) (sym (add64_small b n (omega int_laws)))
      (ground (arith, +ℤ_parts b n, parts (b +ℤ n)))

step_thread-InRange :
    (m b : ℤ) (t : Thread)
    → IsCareful t
    → InRange m b
    → IsCareful (step_thread m b t).1 × InRange m (step_thread m b t).0
unfolding step_thread
step_thread-InRange m b (looping (consume n)) c r = elim (Bool-cases (ltb_ℤ b n)) [
  | inl e ↦ rw (step_thread, e) (tt, r)
  | inr e ↦ rw (step_thread, e) ((c, e), r)
]
step_thread-InRange m b (looping (replenish n)) c r = (c, r)
step_thread-InRange m b (loaded (consume n) cur) (s, enough) r =
    elim (Bool-cases (unchanged b cur)) [
      | inl e ↦
          rw (step_thread, e)
            (tt, taken-InRange m cur n (subst (InRange m) (unchanged_eq b cur e) r) s enough)
      | inr e ↦ rw (step_thread, e) (s, r)
    ]
step_thread-InRange m b (loaded (replenish n) cur) s r = elim (Bool-cases (unchanged b cur)) [
  | inl e ↦
      rw (step_thread, e) (tt, given-InRange m cur n (subst (InRange m) (unchanged_eq b cur e) r) s)
  | inr e ↦ rw (step_thread, e) (s, r)
]
step_thread-InRange m b (returned c r) s range = (tt, range)

step-InRange :
    (i : ℕ) (s : Shared)
    → All IsCareful s.threads
    → InRange s.burst_max s.burst
    → All IsCareful (step i s).threads × InRange (step i s).burst_max (step i s).burst
unfolding step
step-InRange i s all r = elim (Option-cases (get_elem? s.threads i)) [
  | inl e ↦ rw (step, e) (all, r)
  | inr (t, e) ↦
      let (careful, range) = step_thread-InRange s.burst_max s.burst t (all i t e) r in
      rw (step, e)
        (set-All IsCareful s.threads i (step_thread s.burst_max s.burst t).1 careful all, range)
]

-- Where the maximum and the amounts of the calls are from 0 to below 2 ^ 62, and a consumer that
-- is about to compare saw enough, a burst from 0 to the maximum stays there in every
-- interleaving.
pub run-InRange :
    (schedule : List ℕ) (s : Shared)
    → All IsCareful s.threads
    → InRange s.burst_max s.burst
    → InRange (run schedule s).burst_max (run schedule s).burst
unfolding run
run-InRange [] s all r = r
run-InRange (i ∷ schedule) s all r =
    let (all', r') = step-InRange i s all r in run-InRange schedule (step i s) all' r'
