-- ===== src/Budget/Window/Still.antt =====
-- The window of internal/budget/window.go within one second of the clock.
use koshi_runtime.Base.{
  ℕ, ◌+◌, ◌*◌, ◌^◌, ◌≤◌, ◌<◌, ◌≡◌, get_or, if◌then◌else◌, arith, get_or-set_self, set-set,
  set-get_or,
}
use koshi_runtime.Base.Int.{
  ℤ, pos, magnitude, ◌+ℤ◌, ◌-ℤ◌, ◌≤ℤ◌, add64, sub64, add64_small, sub64_small, int_laws,
  magnitude-sub, magnitude-add, ltb_ℤ,
}
use koshi_runtime.Budget.Window.{Window, advance_to, advance, expire_all, deposit, truncate}
use koshi_runtime.Budget.Window.Sums.{mass-set}
use koshi_runtime.Budget.Window.Valid.{IsValid}
use koshi_runtime.Budget.Window.Excess.{Fits}

-- Two readings in the same second, or a later reading in an earlier one, move nothing.
pub advance_still : (t : ℕ) (w : Window) → truncate t ≤ w.head_time → advance t w ≡ w
unfolding advance advance_to
advance_still t w h = ground arith

pub head_time-advance : (t : ℕ) (w : Window) → truncate t ≤ (advance t w).head_time
unfolding advance advance_to expire_all
head_time-advance t w = ground arith

-- Within a second a second look at the clock after an Add moves nothing.
pub advance-deposit :
    (k : ℤ) (t : ℕ) (w : Window) → truncate t ≤ w.head_time → advance t (deposit k w) ≡ deposit k w
unfolding deposit
advance-deposit k t w h = advance_still t (deposit k w) h

-- The total after an Add that neither wraps nor is clamped.
pub deposit-total :
    (k : ℤ) (w : Window)
    → Fits k w
    → pos 0 ≤ℤ w.total_tokens +ℤ k
    → (deposit k w).total_tokens ≡ w.total_tokens +ℤ k
unfolding deposit
deposit-total k w h p = rw (add64_small w.total_tokens k (omega arith)) (ground arith)

back : (a k : ℤ) → a +ℤ k +ℤ (pos 0 -ℤ k) ≡ a
back a k = omega int_laws

add64-back :
    (a k : ℤ) → magnitude a + 2 * magnitude k < 2 ^ 63 → add64 (add64 a k) (sub64 (pos 0) k) ≡ a
add64-back a k h =
    rw
      (
        sub64_small (pos 0) k (omega arith),
        add64_small a k (omega arith),
        add64_small (a +ℤ k) (pos 0 -ℤ k)
            (omega (arith, magnitude-add a k, magnitude-sub (pos 0) k)),
      )
      (back a k)

pub clamp_id : (a : ℤ) → pos 0 ≤ℤ a → (if ltb_ℤ a (pos 0) then pos 0 else a) ≡ a
clamp_id a h = ground arith

-- Taking back what was just added restores the window.
pub deposit-undo :
    (k : ℤ) (w : Window)
    → IsValid w
    → Fits k w
    → pos 0 ≤ℤ w.total_tokens
    → pos 0 ≤ℤ w.total_tokens +ℤ k
    → deposit (sub64 (pos 0) k) (deposit k w) ≡ w
unfolding deposit
deposit-undo k w v h p q =
    let m = mass-set w.buckets w.head_idx (pos 0) (omega arith) in
    let b = get_or w.buckets w.head_idx (pos 0) in
    let fits = add64_small w.total_tokens k (omega arith) in
    rw (
      clamp_id (add64 w.total_tokens k) (rw fits q),
      add64-back w.total_tokens k (omega arith),
      clamp_id w.total_tokens p,
      get_or-set_self w.buckets w.head_idx (add64 b k) (pos 0) (omega arith),
      add64-back b k (omega (arith, m)),
      set-set w.buckets w.head_idx (add64 b k) b,
      set-get_or w.buckets w.head_idx (pos 0) (omega arith),
    )
