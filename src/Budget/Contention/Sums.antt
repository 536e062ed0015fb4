-- ===== src/Budget/Contention/Sums.antt =====
-- Sums over the threads of concurrent calls of Reserve.
use koshi_runtime.Base.{
  ℕ, zero, suc, ◌+◌, ◌≤◌, ◌≡◌, true, false, List, [], ◌∷◌, some, get_elem?, set, leb, if◌then◌else◌,
  arith,
}
use mathlib.Core.Option.{none-ne-some, some-injective}
use koshi_runtime.Base.Int.{ℤ, pos_part}
use koshi_runtime.Budget.Contention.{Thread, starting, added, over_limit, short, answered}

abbrev pub sum : (Thread → ℕ) → List Thread → ℕ
sum f [] = 0
sum f (t ∷ ts) = f t + sum f ts

pub sum-set :
    (f : Thread → ℕ) (ts : List Thread) (i : ℕ) (t t' : Thread)
    → get_elem? ts i ≡ some t
    → sum f (set ts i t') + f t ≡ sum f ts + f t'
sum-set f [] i t t' e = absurd (none-ne-some t e)
sum-set f (x ∷ ts) zero t t' e = rw (some-injective x t e) (omega arith)
sum-set f (x ∷ ts) (suc i) t t' e = omega (arith, sum-set f ts i t t' e)

pub sum-le :
    (f g : Thread → ℕ) → ((t : Thread) → f t ≤ g t) → (ts : List Thread) → sum f ts ≤ sum g ts
sum-le f g le [] = omega arith
sum-le f g le (t ∷ ts) = omega (arith, le t, sum-le f g le ts)

pub at_most :
    (f : Thread → ℕ) (ts : List Thread) (i : ℕ) (t : Thread)
    → get_elem? ts i ≡ some t
    → f t ≤ sum f ts
at_most f [] i t e = absurd (none-ne-some t e)
at_most f (x ∷ ts) zero t e = rw (some-injective x t e) (omega arith)
at_most f (x ∷ ts) (suc i) t e = omega (arith, at_most f ts i t e)

-- One thread counted by the larger of two functions.
pub sum_le_but :
    (f g : Thread → ℕ)
    → ((t : Thread) → f t ≤ g t)
    → (ts : List Thread) (i : ℕ) (t : Thread) → get_elem? ts i ≡ some t
    → sum f ts + g t ≤ sum g ts + f t
sum_le_but f g le [] i t e = absurd (none-ne-some t e)
sum_le_but f g le (x ∷ ts) zero t e = rw (some-injective x t e) (omega (arith, sum-le f g le ts))
sum_le_but f g le (x ∷ ts) (suc i) t e = omega (arith, le x, sum_le_but f g le ts i t e)

-- The tokens that a thread has asked for, by their amount.
abbrev pub asked : Thread → ℕ
asked (starting est) = pos_part est
asked (added est) = pos_part est
asked (over_limit est overage) = pos_part est
asked (short est) = pos_part est
asked (answered est allowed) = pos_part est

-- The tokens that it has in the window.
abbrev pub held : Thread → ℕ
held (starting est) = 0
held (added est) = pos_part est
held (over_limit est overage) = pos_part est
held (short est) = pos_part est
held (answered est true) = pos_part est
held (answered est false) = 0

-- The tokens that it was granted.
abbrev pub granted : Thread → ℕ
granted (answered est true) = pos_part est
granted _ = 0

-- The tokens that it was granted, or would be if a burst of `m` is enough for it.
abbrev pub within : ℕ → Thread → ℕ
within m (over_limit est overage) = if leb (pos_part overage) m then pos_part est else 0
within m t = granted t

pub within-held : (m : ℕ) (t : Thread) → within m t ≤ held t
within-held m (starting est) = omega arith
within-held m (added est) = omega arith
within-held m (over_limit est overage) = ground arith
within-held m (short est) = omega arith
within-held m (answered est true) = omega arith
within-held m (answered est false) = omega arith

pub granted-within : (m : ℕ) (t : Thread) → granted t ≤ within m t
granted-within m (starting est) = omega arith
granted-within m (added est) = omega arith
granted-within m (over_limit est overage) = omega arith
granted-within m (short est) = omega arith
granted-within m (answered est allowed) = omega arith

pub held-asked : (t : Thread) → held t ≤ asked t
held-asked (starting est) = omega arith
held-asked (added est) = omega arith
held-asked (over_limit est overage) = omega arith
held-asked (short est) = omega arith
held-asked (answered est true) = omega arith
held-asked (answered est false) = omega arith

pub within_over :
    (m : ℕ) (est overage : ℤ)
    → pos_part overage ≤ m
    → within m (over_limit est overage) ≡ pos_part est
within_over m est overage h = ground arith
