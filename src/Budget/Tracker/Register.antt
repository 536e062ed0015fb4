-- ===== src/Budget/Tracker/Register.antt =====
-- Register of internal/budget/tracker.go.
use koshi_runtime.Base.{
  ℕ, ◌<◌, ◌≤◌, leb, true, arith, ◌≡◌, refl, ap, ◌∙◌, replicate, inl, inr, some, none, Option,
  String, Option-cases, Bool-cases, str_eq, eq_iff, sym, if◌then◌else◌,
}
use koshi_runtime.Base.Dict.{lookup, lookup-insert}
use koshi_runtime.Base.Int.{ℤ, pos}
use koshi_runtime.Budget.Window.{Window, new_window, max_buckets, truncate}
use koshi_runtime.Budget.Window.Valid.{IsValid, new_window-IsValid}
use koshi_runtime.Budget.Tracker.{Tracker, WorkloadState, BudgetParams, load_or_store, register}
use koshi_runtime.Budget.Tracker.Frame.{AllValid, insert-AllValid}

pub new_window_runs :
    (n : ℕ) (burst : ℤ) (now : ℕ)
    → 0 < n
    → n ≤ max_buckets
    → (w : Window) × (new_window (pos n) burst now ≡ some w) × IsValid w
unfolding new_window
new_window_runs n burst now h most =
    let w : Window = record {
      buckets = replicate n (pos 0);
      num_buckets = n;
      head_idx = 0;
      head_time = truncate now;
      total_tokens = pos 0;
      burst_max = burst;
      burst_remaining = burst;
    } in
    let small : leb n max_buckets ≡ true = ground arith in
    let run : new_window (pos n) burst now ≡ some w = rw (new_window, small) refl in
    (w, run, new_window-IsValid n burst now h run)

load_or_store-AllValid :
    (id : String) (ws : WorkloadState) (t : Tracker)
    → AllValid t
    → IsValid ws.window
    → AllValid (load_or_store id ws t)
unfolding load_or_store
load_or_store-AllValid id ws t all v = elim (Option-cases (lookup id t)) [
  | inl e ↦ rw (e, load_or_store) (insert-AllValid id ws t all v)
  | inr (x, e) ↦ rw (e, load_or_store) all
]

-- The state of a workload that is registered, or else a new one.
abbrev pub first_registered : Option WorkloadState → WorkloadState → WorkloadState
first_registered none new = new
first_registered (some ws) new = ws

load_or_store-lookup :
    (id k : String) (ws : WorkloadState) (t : Tracker)
    → lookup k (load_or_store id ws t)
      ≡ (if str_eq id k then some (first_registered (lookup id t) ws) else lookup k t)
unfolding load_or_store
load_or_store-lookup id k ws t = elim (Option-cases (lookup id t)) [
  | inl e ↦ rw (e, load_or_store) (lookup-insert id k ws t)
  | inr (x, e) ↦
      rw (e, load_or_store)
        (elim (Bool-cases (str_eq id k)) [
          | inl m ↦ rw m (ap (λ i. lookup i t) (sym ((eq_iff id k).0 m)) ∙ e)
          | inr m ↦ rw m refl
        ])
]

-- Registering a workload with a window of at least one and at most `max_buckets` seconds returns
-- and keeps every window valid; the workload then has the state of its first registration, be it
-- an earlier one or, with a new window, this one, and every other workload has the state that it
-- had.
pub register-lookup :
    (id k : String) (p : BudgetParams) (n now : ℕ) (t : Tracker)
    → p.window_seconds ≡ pos n
    → 0 < n
    → n ≤ max_buckets
    → AllValid t
    → (t' : Tracker) × (w : Window) × (register id p now t ≡ some t')
      × (new_window (pos n) p.burst_tokens now ≡ some w)
      × AllValid t'
      × (lookup k t' ≡ (
          if str_eq id k
          then some (
              first_registered (lookup id t) (record {
                window = w;
                window_seconds = p.window_seconds;
                limit_tokens = p.limit_tokens;
              }))
          else lookup k t))
unfolding register
register-lookup id k p n now t e h most all =
    let (w, run, v) = new_window_runs n p.burst_tokens now h most in
    let ws : WorkloadState = record {
      window = w;
      window_seconds = p.window_seconds;
      limit_tokens = p.limit_tokens;
    } in
    (
      load_or_store id ws t,
      w,
      rw (ap (λ s. new_window s p.burst_tokens now) e ∙ run),
      run,
      load_or_store-AllValid id ws t all v,
      load_or_store-lookup id k ws t,
    )
