-- ===== src/Budget/Contention/Cover.antt =====
-- What concurrent calls of Reserve of internal/budget/tracker.go admit together.
use koshi_runtime.Base.{
  ℕ, zero, suc, ◌+◌, ◌-◌, ◌^◌, ◌≤◌, ◌<◌, ◌≡◌, refl, ap, sym, ◌∙◌, Option-cases, ◌⊎◌, inl, inr, List,
  [], ◌∷◌, some, get_elem?, set, arith,
}
use mathlib.Core.Option.{some-injective}
use mathlib.Core.Path.{subst}
use koshi_runtime.Base.Int.{ℤ, pos, pos_part, eq_of_parts, ◌≤ℤ◌, int_laws}
use koshi_runtime.Budget.Window.{Window, truncate}
use koshi_runtime.Budget.Window.Valid.{IsValid}
use koshi_runtime.Budget.Contention.{
  Thread, starting, added, over_limit, short, answered, step_thread, Calls, step, run,
}
use koshi_runtime.Budget.Contention.Sums.{
  sum, sum-set, sum-le, at_most, sum_le_but, asked, held, granted, within, within-held,
  granted-within, held-asked,
}
use koshi_runtime.Budget.Contention.Moves.{
  HasAmounts, IsCharged, Moved, starting_moves, added_moves, over_limit_moves, short_moves,
  answered_moves,
}

-- What holds of every thread.
abbrev pub All : (Thread → Type 0) → List Thread → Type 0
All P ts = (i : ℕ) (t : Thread) → get_elem? ts i ≡ some t → P t

set-All :
    (P : Thread → Type 0) (ts : List Thread) (i : ℕ) (t : Thread)
    → P t
    → All P ts
    → All P (set ts i t)
set-All P [] i t s all j u e = all j u e
set-All P (x ∷ ts) zero t s all zero u e = subst P (some-injective t u e) s
set-All P (x ∷ ts) zero t s all (suc j) u e = all (suc j) u e
set-All P (x ∷ ts) (suc i) t s all zero u e = all zero u e
set-All P (x ∷ ts) (suc i) t s all (suc j) u e = set-All P ts i t s (λ k. all (suc k)) j u e

-- A limit of `l`, a window that `u` tokens are in beside those that the threads hold, a burst that
-- was `b`, and sums that do not wrap. Whatever is granted, or would be by a burst of as much as
-- has been spent or more, is nothing, or covered by the limit and that burst.
pub record Covers (now u l b : ℕ) (s : Calls) : Type 0 where
  pub limit_is : s.limit ≡ pos l
  pub charged : IsCharged now (u + sum held s.threads) b s.window
  pub fits : (u + sum asked s.threads + l < 2 ^ 63) × (b < 2 ^ 63)
  pub amounts : All HasAmounts s.threads
  pub covered :
      (m : ℕ)
      → b ≤ pos_part s.window.burst_remaining + m
      → (sum (within m) s.threads ≡ 0) ⊎ (u + sum (within m) s.threads ≤ l + m)

step_thread_moves :
    (now used l b : ℕ) (w : Window) (t : Thread)
    → IsCharged now used b w
    → HasAmounts t
    → held t ≤ used
    → used + asked t + l < 2 ^ 63 + held t
    → b < 2 ^ 63
    → (w' : Window) × (t' : Thread) × (step_thread now (pos l) w t ≡ some (w', t'))
      × Moved now used l b t t' w w'
step_thread_moves now used l b w (starting est) c a h f g =
    starting_moves now used l b w c est a (omega arith)
step_thread_moves now used l b w (added est) c a h f g =
    added_moves now used l b w c est a (omega arith)
step_thread_moves now used l b w (over_limit est overage) c (a, o) h f g =
    over_limit_moves now used l b w c est overage a o g
step_thread_moves now used l b w (short est) c a h f g =
    short_moves now used l b w c est a h (omega arith)
step_thread_moves now used l b w (answered est r) c a h f g =
    answered_moves now used l b w c est r a

-- A step that moves a thread keeps what is covered.
Moved-Covers :
    (now u l b i : ℕ) (s : Calls) (t t' : Thread) (w' : Window)
    → Covers now u l b s
    → get_elem? s.threads i ≡ some t
    → Moved now (u + sum held s.threads) l b t t' s.window w'
    → Covers now u l b (record s { window = w'; threads = set s.threads i t' })
Moved-Covers now u l b i s t t' w' c at m = record {
  limit_is = c.limit_is;
  charged = subst (λ n. IsCharged now n b w') same m.charged;
  fits = (omega (arith, sum-set asked s.threads i t t' at, m.same_asked, c.fits), c.fits.1);
  amounts = set-All HasAmounts s.threads i t' m.amounts c.amounts;
  covered = λ k enough.
      still_covered k enough (m.covered k enough) (c.covered k (omega (arith, m.spends)));
}
  where
    same : m.used' ≡ u + sum held (set s.threads i t')
    same = omega (arith, sum-set held s.threads i t t' at, m.follows)

    still_covered :
        (k : ℕ)
        → b ≤ pos_part w'.burst_remaining + k
        → (within k t' ≤ within k t) ⊎ (m.used' ≤ l + k)
        → (sum (within k) s.threads ≡ 0) ⊎ (u + sum (within k) s.threads ≤ l + k)
        → (sum (within k) (set s.threads i t') ≡ 0)
          ⊎ (u + sum (within k) (set s.threads i t') ≤ l + k)
    still_covered k enough (inr h) old =
        inr (omega (arith, same, sum-le (within k) held (within-held k) (set s.threads i t')))
    still_covered k enough (inl h) (inl z) =
        inl (omega (arith, sum-set (within k) s.threads i t t' at))
    still_covered k enough (inl h) (inr g) =
        inr (omega (arith, sum-set (within k) s.threads i t t' at))

step-Covers :
    (now u l b i : ℕ) (s : Calls)
    → Covers now u l b s
    → (s' : Calls) × (step now i s ≡ some s')
      × Covers now u l b s'
      × (sum asked s'.threads ≡ sum asked s.threads)
unfolding step
step-Covers now u l b i s c = elim (Option-cases (get_elem? s.threads i)) [
  | inl e ↦ (s, rw (step, e) refl, c, refl)
  | inr (t, e) ↦
      let (w', t', next, m) =
        step_thread_moves now (u + sum held s.threads) l b s.window t c.charged (c.amounts i t e)
          (omega (arith, at_most held s.threads i t e))
          (omega (arith, sum_le_but held asked held-asked s.threads i t e, c.fits)) c.fits.1 in
      (
        record s { window = w'; threads = set s.threads i t' },
        rw (step, e, c.limit_is, next) refl,
        Moved-Covers now u l b i s t t' w' c e m,
        omega (arith, sum-set asked s.threads i t t' e, m.same_asked),
      )
]

run-Covers :
    (now u l b : ℕ) (schedule : List ℕ) (s : Calls)
    → Covers now u l b s
    → (s' : Calls) × (run now schedule s ≡ some s')
      × Covers now u l b s'
      × (sum asked s'.threads ≡ sum asked s.threads)
unfolding run
run-Covers now u l b [] s c = (s, refl, c, refl)
run-Covers now u l b (i ∷ schedule) s c =
    let (s1, e1, c1, a1) = step-Covers now u l b i s c in
    let (s2, e2, c2, a2) = run-Covers now u l b schedule s1 c1 in (s2, rw (run, e1) e2, c2, a2 ∙ a1)

-- Calls that have not begun.
abbrev pub IsStarting : Thread → Type 0
IsStarting t = (est : ℤ) × (t ≡ starting est) × (pos 0 ≤ℤ est)

sum_starting :
    (f : Thread → ℕ)
    → ((est : ℤ) → f (starting est) ≡ 0)
    → (ts : List Thread) → All IsStarting ts
    → sum f ts ≡ 0
sum_starting f z [] all = refl
sum_starting f z (t ∷ ts) all =
    let (est, e, _) = all zero t refl in
    omega (arith, ap f e, z est, sum_starting f z ts (λ i. all (suc i)))

starting-HasAmounts : (t : Thread) → IsStarting t → HasAmounts t
starting-HasAmounts t (est, e, h) = subst HasAmounts (sym e) h

-- Before any of the calls has begun.
starting-Covers :
    (now u l b : ℕ) (s : Calls)
    → s.limit ≡ pos l
    → IsCharged now u b s.window
    → All IsStarting s.threads
    → u + sum asked s.threads + l < 2 ^ 63
    → b < 2 ^ 63
    → Covers now u l b s
starting-Covers now u l b s lim c all f g = record {
  limit_is = lim;
  charged =
      subst (λ n. IsCharged now n b s.window)
        (omega (arith, sum_starting held (λ _. refl) s.threads all)) c;
  fits = (f, g);
  amounts = λ i t e. starting-HasAmounts t (all i t e);
  covered = λ m _. inl (sum_starting (within m) (λ _. refl) s.threads all);
}

-- However concurrent calls of Reserve take turns within one second of the clock, from calls that
-- have not begun, with amounts that are not negative, on a valid window of that second whose
-- total is `u` and whose burst is `b`, with a limit of `l`, and without a sum that wraps: none
-- panics; the total is `u` with the tokens of the calls that have added theirs and not taken
-- them back; the burst is never below zero; and what is granted by then is nothing, or is
-- covered, with `u`, by the limit and the burst that has been spent.
pub run_never_over_admits :
    (now u l b : ℕ) (schedule : List ℕ) (s : Calls)
    → s.limit ≡ pos l
    → IsValid s.window
    → truncate now ≤ s.window.head_time
    → s.window.total_tokens ≡ pos u
    → s.window.burst_remaining ≡ pos b
    → All IsStarting s.threads
    → u + sum asked s.threads + l < 2 ^ 63
    → b < 2 ^ 63
    → (s' : Calls) × (left : ℕ) × (spent : ℕ) × (run now schedule s ≡ some s')
      × (s'.window.total_tokens ≡ pos (u + sum held s'.threads))
      × (sum asked s'.threads ≡ sum asked s.threads)
      × (s'.window.burst_remaining ≡ pos left)
      × (left + spent ≡ b)
      × ((sum granted s'.threads ≡ 0) ⊎ (u + sum granted s'.threads ≤ l + spent))
run_never_over_admits now u l b schedule s lim v h total_is burst_is all f g =
    let charged : IsCharged now u b s.window = record {
      valid = v;
      begun = h;
      total_is = total_is;
      burst_amount = rw burst_is (omega arith);
      burst_most = rw burst_is (omega arith);
    } in
    let (s', e, c, a) =
      run-Covers now u l b schedule s (starting-Covers now u l b s lim charged all f g) in
    let left = pos_part s'.window.burst_remaining in
    (
      s',
      left,
      b - left,
      e,
      c.charged.total_is,
      a,
      eq_of_parts s'.window.burst_remaining (pos left) (omega (int_laws, c.charged.burst_amount)),
      omega (arith, c.charged.burst_most),
      granted_covered s' (b - left) (c.covered (b - left) (omega (arith, c.charged.burst_most))),
    )
  where
    granted_covered :
        (s' : Calls) (m : ℕ)
        → (sum (within m) s'.threads ≡ 0) ⊎ (u + sum (within m) s'.threads ≤ l + m)
        → (sum granted s'.threads ≡ 0) ⊎ (u + sum granted s'.threads ≤ l + m)
    granted_covered s' m (inl z) =
        inl (omega (arith, sum-le granted (within m) (granted-within m) s'.threads))
    granted_covered s' m (inr k) =
        inr (omega (arith, sum-le granted (within m) (granted-within m) s'.threads))
