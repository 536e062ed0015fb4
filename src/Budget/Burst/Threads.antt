-- ===== src/Budget/Burst/Threads.antt =====
-- The threads of concurrent calls on the burst of internal/budget/window.go.
use koshi_runtime.Base.{
  ℕ, zero, suc, ◌≡◌, refl, Bool, true, false, Bool-cases, ◌⊎◌, inl, inr, List, [], ◌∷◌, some,
  get_elem?, set, arith,
}
use mathlib.Core.Option.{none-ne-some, some-injective}
use mathlib.Core.Path.{subst}
use koshi_runtime.Base.Int.{ℤ, ltb_ℤ}
use koshi_runtime.Budget.Burst.{
  Call, consume, replenish, Thread, looping, loaded, returned, unchanged, step_thread, Shared, step,
  run,
}

-- What holds of every thread.
abbrev pub All : (Thread → Type 0) → List Thread → Type 0
All P ts = (i : ℕ) (t : Thread) → get_elem? ts i ≡ some t → P t

pub set-All :
    (P : Thread → Type 0) (ts : List Thread) (i : ℕ) (t : Thread)
    → P t
    → All P ts
    → All P (set ts i t)
set-All P [] i t s all j u e = all j u e
set-All P (x ∷ ts) zero t s all zero u e = subst P (some-injective t u e) s
set-All P (x ∷ ts) zero t s all (suc j) u e = all (suc j) u e
set-All P (x ∷ ts) (suc i) t s all zero u e = all zero u e
set-All P (x ∷ ts) (suc i) t s all (suc j) u e = set-All P ts i t s (λ k. all (suc k)) j u e

get_elem-set :
    (ts : List Thread) (i : ℕ) (t t' : Thread)
    → get_elem? ts i ≡ some t
    → get_elem? (set ts i t') i ≡ some t'
get_elem-set [] i t t' e = absurd (none-ne-some t e)
get_elem-set (x ∷ ts) zero t t' e = refl
get_elem-set (x ∷ ts) (suc i) t t' e = get_elem-set ts i t t' e

-- The step of a thread that is there.
step_own :
    (i : ℕ) (s : Shared) (t : Thread)
    → get_elem? s.threads i ≡ some t
    → (get_elem? (step i s).threads i ≡ some (step_thread s.burst_max s.burst t).1)
      × ((step i s).burst ≡ (step_thread s.burst_max s.burst t).0)
      × ((step i s).burst_max ≡ s.burst_max)
unfolding step
step_own i s t e = rw (step, e) (get_elem-set s.threads i t _ e, refl, refl)

-- A thread that has returned.
abbrev pub HasReturned : Thread → Type 0
HasReturned t = (c : Call) × (r : Bool) × (t ≡ returned c r)

unchanged_self : (b : ℤ) → unchanged b b ≡ true
unchanged_self b = ground arith

-- A thread that has just loaded the value that is there returns.
loaded-HasReturned : (m b : ℤ) (c : Call) → HasReturned (step_thread m b (loaded c b)).1
unfolding step_thread
loaded-HasReturned m b (consume n) = (consume n, true, rw (step_thread, unchanged_self b) refl)
loaded-HasReturned m b (replenish n) = (replenish n, true, rw (step_thread, unchanged_self b) refl)

returned_stays : (m b : ℤ) (t : Thread) → HasReturned t → HasReturned (step_thread m b t).1
unfolding step_thread
returned_stays m b t (c, r, e) = (c, r, rw e refl)

-- A thread at the top of its loop returns, or loads the value.
looping_next :
    (m b : ℤ) (c : Call)
    → HasReturned (step_thread m b (looping c)).1 ⊎ (step_thread m b (looping c) ≡ (b, loaded c b))
unfolding step_thread
looping_next m b (consume n) = elim (Bool-cases (ltb_ℤ b n)) [
  | inl e ↦ inl (consume n, false, rw (step_thread, e) refl)
  | inr e ↦ inr (rw (step_thread, e) refl)
]
looping_next m b (replenish n) = inr refl

-- A thread that has loaded a value returns, or goes back.
loaded_next :
    (m b : ℤ) (c : Call) (cur : ℤ)
    → HasReturned (step_thread m b (loaded c cur)).1
      ⊎ (step_thread m b (loaded c cur) ≡ (b, looping c))
unfolding step_thread
loaded_next m b (consume n) cur = elim (Bool-cases (unchanged b cur)) [
  | inl e ↦ inl (consume n, true, rw (step_thread, e) refl)
  | inr e ↦ inr (rw (step_thread, e) refl)
]
loaded_next m b (replenish n) cur = elim (Bool-cases (unchanged b cur)) [
  | inl e ↦ inl (replenish n, true, rw (step_thread, e) refl)
  | inr e ↦ inr (rw (step_thread, e) refl)
]

-- The second step of a thread that is at the top of its loop.
two_steps :
    (m b : ℤ) (c : Call)
    → let x = step_thread m b (looping c) in HasReturned (step_thread m x.0 x.1).1
two_steps m b c = elim (looping_next m b c) [
  | inl h ↦ returned_stays m _ _ h
  | inr e ↦ rw e (loaded-HasReturned m b c)
]

-- The third step of any thread.
three_steps :
    (m b : ℤ) (t : Thread)
    → let x = step_thread m b t in
      let y = step_thread m x.0 x.1 in HasReturned (step_thread m y.0 y.1).1
three_steps m b (looping c) = returned_stays m _ _ (two_steps m b c)
three_steps m b (loaded c cur) = elim (loaded_next m b c cur) [
  | inl h ↦ returned_stays m _ _ (returned_stays m _ _ h)
  | inr e ↦ rw e (two_steps m b c)
]
three_steps m b (returned c r) =
    returned_stays m _ _ (returned_stays m _ _ (returned_stays m b (returned c r) (c, r, refl)))

-- A call of ConsumeBurst or ReplenishBurst, wherever it stands in its loop, returns once it
-- makes three atomic operations that no other call comes between.
pub run_alone :
    (i : ℕ) (s : Shared) (t : Thread)
    → get_elem? s.threads i ≡ some t
    → (t' : Thread) × (get_elem? (run (i ∷ i ∷ i ∷ []) s).threads i ≡ some t') × HasReturned t'
unfolding run
run_alone i s t e =
    let (at1, b1, m1) = step_own i s t e in
    let (at2, b2, m2) = step_own i (step i s) _ at1 in
    let (at3, _, _) = step_own i (step i (step i s)) _ at2 in
    (_, at3, rw (m2, b2, m1, b1) (three_steps s.burst_max s.burst t))
