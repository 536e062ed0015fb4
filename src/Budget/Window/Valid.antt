-- ===== src/Budget/Window/Valid.antt =====
-- The shape of a window, which keeps every index of window.go in range.
use koshi_runtime.Base.{
  ℕ, zero, suc, ◌+◌, ◌%◌, ◌<◌, ◌≡◌, refl, ap, List, [], ◌∷◌, some, map, length, replicate,
  length-set, get_or, arith,
}
use koshi_runtime.Base.Int.{ℤ, pos, add64}
use koshi_runtime.Budget.Window.{
  Window, new_window, expire_one, expire, expire_all, advance_to, advance, elapsed, deposit,
  deposit_checked, add, truncate,
}

pub record IsValid (w : Window) : Type 0 where
  pub positive : 0 < w.num_buckets
  pub sized : length w.buckets ≡ w.num_buckets
  pub head_in : w.head_idx < w.num_buckets

length-replicate : (n : ℕ) (a : ℤ) → length (replicate n a) ≡ n
length-replicate zero a = refl
length-replicate (suc n) a = ap suc (length-replicate n a)

length-map : (xs : List ℤ) (f : ℤ → ℤ) → length (map f xs) ≡ length xs
length-map [] f = refl
length-map (x ∷ xs) f = ap suc (length-map xs f)

pub new_window-IsValid :
    (n : ℕ) (burst : ℤ) (t : ℕ) {w : Window}
    → 0 < n
    → new_window (pos n) burst t ≡ some w
    → IsValid w
unfolding new_window
new_window-IsValid n burst t h e = ground (arith, length-replicate n (pos 0))

pub expire_one-IsValid : (w : Window) → IsValid w → IsValid (expire_one w)
unfolding expire_one
expire_one-IsValid w v =
    ground (arith, length-set w.buckets ((w.head_idx + 1) % w.num_buckets) (pos 0))

pub expire-IsValid : (k : ℕ) (w : Window) → IsValid w → IsValid (expire k w)
unfolding expire
expire-IsValid zero w v = v
expire-IsValid (suc k) w v = expire-IsValid k (expire_one w) (expire_one-IsValid w v)

pub advance_to-IsValid : (now : ℕ) (w : Window) → IsValid w → IsValid (advance_to now w)
unfolding advance_to expire_all
advance_to-IsValid now w v =
    ground (arith, expire-IsValid (elapsed now w) w v, length-map w.buckets (λ _. pos 0))

pub advance-IsValid : (t : ℕ) (w : Window) → IsValid w → IsValid (advance t w)
unfolding advance
advance-IsValid t w v = advance_to-IsValid (truncate t) w v

pub deposit-IsValid : (k : ℤ) (w : Window) → IsValid w → IsValid (deposit k w)
unfolding deposit
deposit-IsValid k w v =
    ground (arith, length-set w.buckets w.head_idx (add64 (get_or w.buckets w.head_idx (pos 0)) k))

-- On a valid window Add does not panic.
pub deposit_checked-some :
    (k : ℤ) (w : Window) → IsValid w → deposit_checked k w ≡ some (deposit k w)
unfolding deposit_checked
deposit_checked-some k w v = ground arith

pub add-some : (k : ℤ) (t : ℕ) (w : Window) → IsValid w → add k t w ≡ some (deposit k (advance t w))
unfolding add
add-some k t w v = deposit_checked-some k (advance t w) (advance-IsValid t w v)
