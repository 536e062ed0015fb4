-- ===== src/Budget/Window/Excess.antt =====
-- The cached total of internal/budget/window.go against the sum of its buckets.
use koshi_runtime.Base.{
  ℕ, zero, suc, ◌+◌, ◌*◌, ◌%◌, ◌^◌, ◌≤◌, ◌<◌, ◌≡◌, refl, ap, ◌∙◌, Bool, if◌then◌else◌, inl, inr,
  false, some, length, get_or, leb, arith, Bool-cases,
}
use koshi_runtime.Base.Int.{
  ℤ, pos, pos_part, neg_part, magnitude, ◌+ℤ◌, ◌-ℤ◌, ◌≤ℤ◌, ◌<ℤ◌, sub64, add64_small, ltb_ℤ,
  int_laws, sub64_small, magnitude-sub, magnitude-add, ltb_ℤ→<ℤ, <ℤ→ltb_ℤ,
}
use koshi_runtime.Budget.Window.{
  Window, expire_one, expire, expire_all, advance_to, advance, elapsed, deposit, truncate, add,
}
use koshi_runtime.Budget.Window.Sums.{sum, mass, sum-set, mass-set, sum-map_zero, mass-map_zero}
use koshi_runtime.Budget.Window.Valid.{
  IsValid, expire_one-IsValid, advance-IsValid, deposit-IsValid, add-some,
}

abbrev pub load : Window → ℕ
load w = magnitude w.total_tokens + mass w.buckets

-- How far the cached total lies above the buckets.
abbrev pub excess : Window → ℤ
excess w = w.total_tokens -ℤ sum w.buckets

-- Taking a bucket out of the list and off the total.
abbrev take_off : Window → ℕ → ℤ
take_off w i = w.total_tokens -ℤ get_or w.buckets i (pos 0)

take_off-sub64 :
    (w : Window) (i : ℕ)
    → i < length w.buckets
    → load w < 2 ^ 63
    → sub64 w.total_tokens (get_or w.buckets i (pos 0)) ≡ take_off w i
take_off-sub64 w i b h =
    sub64_small w.total_tokens (get_or w.buckets i (pos 0))
      (omega (arith, mass-set w.buckets i (pos 0) b))

next_in : (w : Window) → IsValid w → (w.head_idx + 1) % w.num_buckets < length w.buckets
next_in w v = omega arith

-- Without a wrap a round of the loop takes nothing off the excess, and loads no more.
pub expire_one-load : (w : Window) → IsValid w → load w < 2 ^ 63 → load (expire_one w) ≤ load w
unfolding expire_one
expire_one-load w v h = rw (take_off-sub64 w _ (next_in w v) h) (
    omega (
      arith,
      magnitude-sub w.total_tokens (get_or w.buckets ((w.head_idx + 1) % w.num_buckets) (pos 0)),
      mass-set w.buckets ((w.head_idx + 1) % w.num_buckets) (pos 0) (next_in w v),
    ))

pub expire_one-excess :
    (w : Window) → IsValid w → load w < 2 ^ 63 → excess (expire_one w) ≡ excess w
unfolding expire_one
expire_one-excess w v h =
    rw (take_off-sub64 w _ (next_in w v) h)
      (move _ _ _ _ (sum-set w.buckets _ (pos 0) (next_in w v)))
  where
    move : (t g s s' : ℤ) → s' +ℤ g ≡ s +ℤ pos 0 → t -ℤ g -ℤ s' ≡ t -ℤ s
    move t g s s' p = omega (int_laws, ap pos_part p, ap neg_part p)

pub expire-excess :
    (k : ℕ) (w : Window)
    → IsValid w
    → load w < 2 ^ 63
    → (excess (expire k w) ≡ excess w) × (load (expire k w) ≤ load w)
unfolding expire
expire-excess zero w v h = (refl, omega arith)
expire-excess (suc k) w v h =
    let l = expire_one-load w v h in
    let rest = expire-excess k (expire_one w) (expire_one-IsValid w v) (omega arith) in
    (rest.0 ∙ expire_one-excess w v h, omega arith)

-- At this time no bucket of the window is current any more.
abbrev pub is_over : ℕ → Window → Bool
is_over t w =
    if leb (truncate t) w.head_time then false else leb w.num_buckets (elapsed (truncate t) w)

expire_all-excess :
    (now : ℕ) (w : Window) → (excess (expire_all now w) ≡ pos 0) × (load (expire_all now w) ≡ 0)
unfolding expire_all
expire_all-excess now w =
    (rw (sum-map_zero w.buckets) (omega int_laws), omega (arith, mass-map_zero w.buckets))

-- The passage of time leaves the excess alone, until the whole window is over.
pub advance-excess :
    (t : ℕ) (w : Window)
    → IsValid w
    → load w < 2 ^ 63
    → (excess (advance t w) ≡ (if is_over t w then pos 0 else excess w))
      × (load (advance t w) ≤ load w)
unfolding advance advance_to
advance-excess t w v h =
    ground (arith, expire-excess (elapsed (truncate t) w) w v h, expire_all-excess (truncate t) w)

-- What the clamp of Add puts on top of the sum.
abbrev pub shortfall : ℤ → Window → ℤ
shortfall k w =
    let total = w.total_tokens +ℤ k in if ltb_ℤ total (pos 0) then pos 0 -ℤ total else pos 0

settle :
    (t k b s s' : ℤ)
    → s' +ℤ b ≡ s +ℤ (b +ℤ k)
    → (if ltb_ℤ (t +ℤ k) (pos 0) then pos 0 else t +ℤ k) -ℤ s'
      ≡ t -ℤ s +ℤ (if ltb_ℤ (t +ℤ k) (pos 0) then pos 0 -ℤ (t +ℤ k) else pos 0)
settle t k b s s' p = elim (Bool-cases (ltb_ℤ (t +ℤ k) (pos 0))) [
  | inl e ↦ rw e (omega (int_laws, ap pos_part p, ap neg_part p))
  | inr e ↦ rw e (omega (int_laws, ap pos_part p, ap neg_part p))
]

current : (w : Window) → IsValid w → w.head_idx < length w.buckets
current w v = omega arith

pub deposit-excess :
    (k : ℤ) (w : Window)
    → IsValid w
    → load w + 2 * magnitude k < 2 ^ 63
    → excess (deposit k w) ≡ excess w +ℤ shortfall k w
unfolding deposit
deposit-excess k w v h =
    let m = mass-set w.buckets w.head_idx (pos 0) (current w v) in
    rw
      (
        add64_small w.total_tokens k (omega arith),
        add64_small (get_or w.buckets w.head_idx (pos 0)) k (omega (arith, m)),
      )
      (settle _ k _ _ _ (sum-set w.buckets w.head_idx _ (current w v)))

pub deposit-load :
    (k : ℤ) (w : Window)
    → IsValid w
    → load w + 2 * magnitude k < 2 ^ 63
    → load (deposit k w) ≤ load w + 2 * magnitude k
unfolding deposit
deposit-load k w v h =
    let m = mass-set w.buckets w.head_idx (pos 0) (current w v) in
    let b = get_or w.buckets w.head_idx (pos 0) in
    rw (add64_small w.total_tokens k (omega arith), add64_small b k (omega (arith, m)))
      (ground (
        arith,
        m,
        mass-set w.buckets w.head_idx (b +ℤ k) (current w v),
        magnitude-add b k,
        magnitude-add w.total_tokens k,
      ))

-- The load that one Add can handle without a wrap.
abbrev pub Fits : ℤ → Window → Type 0
Fits k w = load w + 2 * magnitude k < 2 ^ 63

-- Add on a valid window with no wrap returns; the excess of the result is that of the window when
-- the clock has moved on, plus the shortfall that the clamp covers.
pub add-excess :
    (k : ℤ) (t : ℕ) (w : Window)
    → IsValid w
    → Fits k w
    → add k t w ≡ some (deposit k (advance t w))
      × (excess (deposit k (advance t w)) ≡ excess (advance t w) +ℤ shortfall k (advance t w))
add-excess k t w v h =
    let l = (advance-excess t w v (omega arith)).1 in
    (add-some k t w v, deposit-excess k (advance t w) (advance-IsValid t w v) (omega arith))

advance_nonneg :
    (t : ℕ) (w : Window)
    → IsValid w
    → load w < 2 ^ 63
    → pos 0 ≤ℤ excess w
    → pos 0 ≤ℤ excess (advance t w)
advance_nonneg t w v h p = rw (advance-excess t w v h).0 (ground arith)

excess_grows :
    (k : ℤ) (w : Window) (e : ℤ) → e ≡ excess w +ℤ shortfall k w → pos 0 ≤ℤ excess w → pos 0 ≤ℤ e
excess_grows k w e q p = rw q (elim (Bool-cases (ltb_ℤ (w.total_tokens +ℤ k) (pos 0))) [
  | inl neg ↦ rw neg (omega (int_laws, ltb_ℤ→<ℤ (w.total_tokens +ℤ k) (pos 0) neg))
  | inr fits ↦ rw fits (omega int_laws)
])

deposit-nonneg : (k : ℤ) (w : Window) → pos 0 ≤ℤ (deposit k w).total_tokens
unfolding deposit
deposit-nonneg k w = ground arith

-- On a valid window where nothing wraps, whose total is not below the sum of its buckets, Add at
-- any time returns a valid window whose total is not below the sum of its buckets and not
-- negative.
pub add_never_undercounts :
    (k : ℤ) (t : ℕ) (w : Window)
    → IsValid w
    → Fits k w
    → pos 0 ≤ℤ excess w
    → (w' : Window) × (add k t w ≡ some w')
      × IsValid w'
      × (pos 0 ≤ℤ excess w')
      × (pos 0 ≤ℤ w'.total_tokens)
add_never_undercounts k t w v h p = (
  deposit k (advance t w),
  add-some k t w v,
  deposit-IsValid k _ (advance-IsValid t w v),
  excess_grows k (advance t w) _ (add-excess k t w v h).1 (advance_nonneg t w v (omega arith) p),
  deposit-nonneg k (advance t w),
)

read_off :
    (t s e e' total : ℤ) (b : Bool)
    → t -ℤ s ≡ (if b then pos 0 else e)
    → b ≡ false
    → e ≡ e' +ℤ (if ltb_ℤ total (pos 0) then pos 0 -ℤ total else pos 0)
    → e' ≡ pos 0
    → total <ℤ pos 0
    → t ≡ s +ℤ (pos 0 -ℤ total)
read_off t s e e' total b later o here base neg =
    let here' = rw (<ℤ→ltb_ℤ total (pos 0) neg) at here in
    let later' = rw o at later in
    omega (
      int_laws,
      ap pos_part later',
      ap neg_part later',
      ap pos_part here',
      ap neg_part here',
      ap pos_part base,
      ap neg_part base,
    )

-- An Add that takes the total of a consistent window below zero leaves on the total what its
-- clamp adds: at every later time before the window is over the total is the sum of the buckets
-- and that amount.
pub clamp_inflates :
    (k : ℤ) (t u : ℕ) (w : Window)
    → IsValid w
    → Fits k w
    → excess (advance t w) ≡ pos 0
    → (advance t w).total_tokens +ℤ k <ℤ pos 0
    → is_over u (deposit k (advance t w)) ≡ false
    → let v = advance u (deposit k (advance t w)) in
      v.total_tokens ≡ sum v.buckets +ℤ (pos 0 -ℤ ((advance t w).total_tokens +ℤ k))
clamp_inflates k t u w v h e neg o =
    let l = (advance-excess t w v (omega arith)).1 in
    let va = advance-IsValid t w v in
    let later =
      advance-excess u (deposit k (advance t w)) (deposit-IsValid k _ va)
        (omega (arith, deposit-load k (advance t w) va (omega arith))) in
    read_off _ _ _ _ _ _ later.0 o (add-excess k t w v h).1 e neg
