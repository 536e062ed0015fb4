-- ===== src/Budget/Window/Tests.antt =====
-- The window of internal/budget/window.go on a ring of three seconds.
use koshi_runtime.Base.{ℕ, ◌≡◌, refl, [], ◌∷◌, some, ◌==◌, if◌then◌else◌, arith}
use koshi_runtime.Base.Int.{ℤ, pos, negsuc, ◌+ℤ◌, ◌-ℤ◌, ◌≤ℤ◌, sub64, add64, wrap64}
use koshi_runtime.Budget.Window.{Window, advance, advance_to, expire, expire_one, deposit, add}
use koshi_runtime.Budget.Window.Excess.{excess, add_never_undercounts, clamp_inflates}
use koshi_runtime.Budget.Window.Recent.{tokens_at, shifted, head_at, add-tokens_at}
use koshi_runtime.Budget.Window.Sums.{sum, mass}
use koshi_runtime.Budget.Window.Valid.{IsValid}

-- 30 tokens in the current second, 10 in the one before.
abbrev ring : Window
ring = record {
  buckets = pos 10 ∷ pos 30 ∷ pos 0 ∷ [];
  num_buckets = 3;
  head_idx = 1;
  head_time = 5_000_000_000;
  total_tokens = pos 40;
  burst_max = pos 20;
  burst_remaining = pos 20;
}

-- The same second, and the one after it.
abbrev now : ℕ
now = 5_600_000_000

abbrev next : ℕ
next = 6_100_000_000

ring-IsValid : IsValid ring
ring-IsValid = record { positive = omega arith; sized = refl; head_in = omega arith }

-- Record with the delta -50.
abbrev delta : ℤ
delta = negsuc 49

clamped : excess (advance now ring) ≡ pos 0
unfolding advance advance_to expire expire_one sum ◌+ℤ◌ ◌-ℤ◌
clamped = refl

add_never_undercounts_example :
    (w' : Window) × (add delta next ring ≡ some w')
    × IsValid w'
    × (pos 0 ≤ℤ excess w')
    × (pos 0 ≤ℤ w'.total_tokens)
unfolding sum mass ◌+ℤ◌ ◌-ℤ◌
add_never_undercounts_example =
    add_never_undercounts delta next ring ring-IsValid (omega arith) (omega arith)

clamp_inflates_example :
    let v = advance next (deposit delta (advance now ring)) in
    v.total_tokens ≡ sum v.buckets +ℤ (pos 0 -ℤ ((advance now ring).total_tokens +ℤ delta))
unfolding advance advance_to expire expire_one deposit sum mass sub64 add64 wrap64 ◌+ℤ◌ ◌-ℤ◌
clamp_inflates_example =
    clamp_inflates delta now next ring ring-IsValid (omega arith) clamped (omega arith) refl

-- Two seconds later only the phantom tokens and the negative bucket are left.
two_seconds_later :
    let v = advance 7_000_000_000 (deposit delta (advance now ring)) in
    ((v.total_tokens ≡ negsuc 9) × (v.buckets ≡ pos 0 ∷ negsuc 19 ∷ pos 0 ∷ []))
unfolding advance advance_to expire expire_one deposit sub64 add64 wrap64 ◌+ℤ◌ ◌-ℤ◌
two_seconds_later = (refl, refl)

add-tokens_at_example :
    (w' : Window) × (add delta next ring ≡ some w')
    × IsValid w'
    × (w'.num_buckets ≡ ring.num_buckets)
    × (w'.head_time ≡ head_at next ring)
    × (tokens_at w' 2 ≡ (if 2 == 0 then add64 (shifted next ring 0) delta else shifted next ring 2))
add-tokens_at_example = add-tokens_at delta next ring 2 ring-IsValid (omega arith) (omega arith)
