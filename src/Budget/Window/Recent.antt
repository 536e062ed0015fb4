-- ===== src/Budget/Window/Recent.antt =====
-- The ring of internal/budget/window.go read by age: what was booked so many seconds before the head.
use native.Mathlib.Nat.{mod-eq_of_lt, mod_self}
use koshi_runtime.Base.{
  ℕ, zero, suc, ◌+◌, ◌-◌, ◌%◌, ◌<◌, ◌≤◌, ◌/◌, ◌^◌, ◌⊎◌, ◌≡◌, refl, ap, sym, ◌∙◌, ==_iff, ◌≢◌, inl,
  inr, some, List, [], ◌∷◌, map, get_or, ltb, leb, ◌==◌, if◌then◌else◌, arith, Bool-cases,
  get_or-set_self, get_or-set_ne,
}
use koshi_runtime.Base.Int.{ℤ, pos, add64}
use koshi_runtime.Budget.Window.{
  Window, expire_one, expire, expire_all, advance_to, advance, elapsed, deposit, add, truncate,
  second,
}
use koshi_runtime.Budget.Window.Valid.{
  IsValid, expire_one-IsValid, advance-IsValid, deposit-IsValid, add-some,
}

-- The slot of the bucket that is `j` seconds older than the one at `h`, in a ring of `n`.
abbrev slot : ℕ → ℕ → ℕ → ℕ
slot n h j = if leb j h then h - j else h + n - j

-- The tokens booked `j` seconds before the head.
abbrev pub tokens_at : Window → ℕ → ℤ
tokens_at w j = get_or w.buckets (slot w.num_buckets w.head_idx j) (pos 0)

next-eq : (h n : ℕ) → h < n → (h + 1) % n ≡ (if h + 1 == n then 0 else h + 1)
next-eq h n lt = elim (Bool-cases (h + 1 == n)) [
  | inl e ↦ rw e (ap (λ m. (h + 1) % m) (sym ((==_iff (h + 1) n).0 e)) ∙ mod_self (h + 1))
  | inr e ↦ rw e (mod-eq_of_lt (ground arith))
]

slot-zero : (n h : ℕ) → slot n h 0 ≡ h
slot-zero n h = ground arith

slot-ne : (n h j : ℕ) → h < n → suc j < n → h ≢ slot n h (suc j)
slot-ne n h j hh hj = λ e. ground arith

-- Going one slot forward makes every slot one second older, and reaches none of the others.
slot-next :
    (n h j : ℕ)
    → h < n
    → suc j < n
    → (slot n ((h + 1) % n) (suc j) ≡ slot n h j) × ((h + 1) % n ≢ slot n h j)
slot-next n h j hh hj = rw (next-eq h n hh) (elim (Bool-cases (h + 1 == n)) [
  | inl e ↦ rw e (ground arith, λ q. ground arith)
  | inr e ↦ rw e (ground arith, λ q. ground arith)
])

not-first : (j : ℕ) (x y : ℤ) → y ≡ (if suc j == 0 then x else y)
not-first j x y = ground arith

older-suc : (f : ℕ → ℤ) (j : ℕ) → (if suc j == 0 then pos 0 else f (suc j - 1)) ≡ f j
older-suc f j = ground arith

older-older :
    (f : ℕ → ℤ) (j k : ℕ)
    → (if ltb j k then pos 0 else (if j - k == 0 then pos 0 else f (j - k - 1)))
      ≡ (if ltb j (suc k) then pos 0 else f (j - suc k))
older-older f j k = ground arith

-- A round of the loop of advance makes every bucket a second older and starts an empty one.
expire_one-tokens_at :
    (w : Window) (j : ℕ)
    → IsValid w
    → j < w.num_buckets
    → tokens_at (expire_one w) j ≡ (if j == 0 then pos 0 else tokens_at w (j - 1))
unfolding expire_one
expire_one-tokens_at w zero v h =
    rw (slot-zero w.num_buckets)
      (get_or-set_self w.buckets ((w.head_idx + 1) % w.num_buckets) (pos 0) (pos 0) (omega arith))
expire_one-tokens_at w (suc j) v h =
    let (same, other) = slot-next w.num_buckets w.head_idx j v.head_in h in
    rw same (get_or-set_ne w.buckets (pos 0) (pos 0) other ∙ sym (older-suc (tokens_at w) j))

num_buckets-expire : (k : ℕ) (w : Window) → (expire k w).num_buckets ≡ w.num_buckets
unfolding expire expire_one
num_buckets-expire zero w = refl
num_buckets-expire (suc k) w = num_buckets-expire k (expire_one w)

expire-tokens_at :
    (k : ℕ) (w : Window) (j : ℕ)
    → IsValid w
    → j < w.num_buckets
    → tokens_at (expire k w) j ≡ (if ltb j k then pos 0 else tokens_at w (j - k))
unfolding expire
expire-tokens_at zero w j v h = ground arith
expire-tokens_at (suc k) w j v h =
    expire-tokens_at k (expire_one w) j (expire_one-IsValid w v) (rw num_buckets-one h)
    ∙ rw (expire_one-tokens_at w (j - k) v (omega arith)) (older-older (tokens_at w) j k)
  where
    num_buckets-one : (expire_one w).num_buckets ≡ w.num_buckets
    num_buckets-one = num_buckets-expire 1 w

get_or-map_zero : (xs : List ℤ) (i : ℕ) → get_or (map (λ _. pos 0) xs) i (pos 0) ≡ pos 0
get_or-map_zero [] i = refl
get_or-map_zero (x ∷ xs) zero = refl
get_or-map_zero (x ∷ xs) (suc i) = get_or-map_zero xs i

-- The seconds by which the head moves at this time.
abbrev pub moved : ℕ → Window → ℕ
moved t w = if leb (truncate t) w.head_time then 0 else elapsed (truncate t) w

-- After the clock has moved on by some seconds, what a valid window holds for `j` seconds before
-- the old head stands that much further back; the seconds in between are empty, and what is
-- older than the window is gone.
pub advance-tokens_at :
    (t : ℕ) (w : Window) (j : ℕ)
    → IsValid w
    → j < w.num_buckets
    → tokens_at (advance t w) j ≡ (if ltb j (moved t w) then pos 0 else tokens_at w (j - moved t w))
unfolding advance advance_to expire_all
advance-tokens_at t w j v h = ground (
  arith,
  expire-tokens_at (elapsed (truncate t) w) w j v h,
  num_buckets-expire (elapsed (truncate t) w) w,
  get_or-map_zero w.buckets (slot w.num_buckets 0 j),
)

-- On a valid window Add books its tokens in the second of the head, and changes no other second.
pub deposit-tokens_at :
    (k : ℤ) (w : Window) (j : ℕ)
    → IsValid w
    → j < w.num_buckets
    → tokens_at (deposit k w) j ≡ (if j == 0 then add64 (tokens_at w 0) k else tokens_at w j)
unfolding deposit
deposit-tokens_at k w zero v h = rw slot-zero (
    get_or-set_self w.buckets w.head_idx (add64 (get_or w.buckets w.head_idx (pos 0)) k) (pos 0)
      (omega arith))
deposit-tokens_at k w (suc j) v h =
    get_or-set_ne w.buckets _ (pos 0) (slot-ne w.num_buckets w.head_idx j v.head_in h)
    ∙ not-first j _ _

-- The whole seconds from the second of the head to the time `t`.
abbrev pub gone : ℕ → Window → ℕ
gone t w = (truncate t - w.head_time) / second

-- The largest Duration is longer than a window of `longest` seconds.
abbrev pub longest : ℕ
longest = 2 ^ 33

gone-moved :
    (t : ℕ) (w : Window) (j : ℕ)
    → j < w.num_buckets
    → w.num_buckets ≤ longest
    → (moved t w ≡ gone t w) ⊎ ((j < moved t w) × (j < gone t w))
gone-moved t w j h most = ground arith

-- What a window held `j` seconds before the head of the time `t`.
abbrev pub shifted : ℕ → Window → ℕ → ℤ
shifted t w j = if ltb j (gone t w) then pos 0 else tokens_at w (j - gone t w)

shifted-moved :
    (t : ℕ) (w : Window) (j : ℕ)
    → j < w.num_buckets
    → w.num_buckets ≤ longest
    → (if ltb j (moved t w) then pos 0 else tokens_at w (j - moved t w)) ≡ shifted t w j
shifted-moved t w j h most = elim (gone-moved t w j h most) [
  | inl e ↦ rw e refl
  | inr (x, y) ↦ ground (arith, x, y)
]

-- The head of a window that the time `t` has come to: it never goes back.
abbrev pub head_at : ℕ → Window → ℕ
head_at t w = if leb (truncate t) w.head_time then w.head_time else truncate t

head_time-add : (k : ℤ) (t : ℕ) (w : Window) → (deposit k (advance t w)).head_time ≡ head_at t w
unfolding deposit advance advance_to expire_all
head_time-add k t w = ground arith

num_buckets-advance : (t : ℕ) (w : Window) → (advance t w).num_buckets ≡ w.num_buckets
unfolding advance advance_to expire_all
num_buckets-advance t w = ground (arith, num_buckets-expire (elapsed (truncate t) w) w)

num_buckets-add :
    (k : ℤ) (t : ℕ) (w : Window) → (deposit k (advance t w)).num_buckets ≡ w.num_buckets
unfolding deposit
num_buckets-add k t w = num_buckets-advance t w

-- On a valid window of at most 2 ^ 33 seconds Add at any time returns a valid window of the same
-- length, whose head is at the second of that time, or where it was when the clock has gone
-- back. In the second of its head it holds the tokens on top of what the old window held for
-- that second, and in every second before what the old window held for it; what the old window
-- held for a later second than its own head is nothing.
pub add-tokens_at :
    (k : ℤ) (t : ℕ) (w : Window) (j : ℕ)
    → IsValid w
    → j < w.num_buckets
    → w.num_buckets ≤ longest
    → (w' : Window) × (add k t w ≡ some w')
      × IsValid w'
      × (w'.num_buckets ≡ w.num_buckets)
      × (w'.head_time ≡ head_at t w)
      × (tokens_at w' j ≡ (if j == 0 then add64 (shifted t w 0) k else shifted t w j))
add-tokens_at k t w j v h most = (
  deposit k (advance t w),
  add-some k t w v,
  deposit-IsValid k (advance t w) (advance-IsValid t w v),
  num_buckets-add k t w,
  head_time-add k t w,
  rw
      (
        deposit-tokens_at k (advance t w) j (advance-IsValid t w v)
            (rw (num_buckets-advance t w) h),
        advance-tokens_at t w 0 v (omega arith),
        advance-tokens_at t w j v h,
        shifted-moved t w 0 (omega arith) most,
        shifted-moved t w j h most,
      )
      refl,
)
