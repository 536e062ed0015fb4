-- ===== src/Budget/Tracker.antt =====
-- internal/budget/tracker.go: a window for each registered workload.
-- The readings of the clock that an operation makes are its arguments, in the order of the calls;
-- `none` is a run-time panic, after which the state is not looked at.
pub mod Reserve
pub mod Reconcile
pub mod Settled
pub mod Frame
pub mod Register
mod Tests
use koshi_runtime.Base.{
  ℕ, Bool, true, false, List, [], ◌∷◌, Option, none, some, if◌then◌else◌, String,
}
use koshi_runtime.Base.Dict.{Dict, lookup, insert}
use koshi_runtime.Base.Int.{ℤ, pos, sub64, ltb_ℤ, leb_ℤ}
use koshi_runtime.Budget.Window.{Window, new_window, add, total, consume_burst, replenish_burst}

pub record BudgetStatus : Type 0 where
  pub window_tokens_used : ℤ
  pub window_tokens_limit : ℤ
  pub burst_remaining : ℤ

pub record BudgetParams : Type 0 where
  pub window_seconds : ℤ
  pub limit_tokens : ℤ
  pub burst_tokens : ℤ

pub record WorkloadStatus : Type 0 where
  pub limit_tokens : ℤ
  pub window_tokens_used : ℤ
  pub burst_remaining : ℤ
  pub window_seconds : ℤ

pub record WorkloadState : Type 0 where
  pub window : Window
  pub window_seconds : ℤ
  pub limit_tokens : ℤ

-- ErrUnknownWorkload is the one error of the package.
pub data Error : Type 0 where
  unknown_workload : Error

-- What Reserve returns.
pub record Reservation : Type 0 where
  pub status : BudgetStatus
  pub allowed : Bool
  pub err : Option Error

-- sync.Map, from workload IDs to their states.
abbrev pub Tracker : Type 0
Tracker = Dict WorkloadState

abbrev pub new_tracker : Tracker
new_tracker = []

infixl 5 ◌>>=◌
abbrev ◌>>=◌ {ℓ μ} : {S : Type ℓ} {T : Type μ} → Option S → (S → Option T) → Option T
none >>= f = none
some a >>= f = f a

-- The value is stored only where the key has none: the first registration wins.
unfoldable pub load_or_store : String → WorkloadState → Tracker → Tracker
load_or_store id ws t = elim (lookup id t) [ some _ ↦ t | none ↦ insert id ws t ]

unfoldable pub register : String → BudgetParams → ℕ → Tracker → Option Tracker
unfolding load_or_store
register id params now t = do
  w ← new_window params.window_seconds params.burst_tokens now
  some (
      load_or_store id
        (record {
          window = w;
          window_seconds = params.window_seconds;
          limit_tokens = params.limit_tokens;
        })
        t)

-- The readings of a call of Reserve: Add, Total, and on a denial Add and Total again.
pub record Readings : Type 0 where
  pub at_add : ℕ
  pub at_total : ℕ
  pub at_undo : ℕ
  pub at_after : ℕ

abbrev pub status_of : Window → ℤ → ℤ → BudgetStatus
status_of w used limit = record {
  window_tokens_used = used;
  window_tokens_limit = limit;
  burst_remaining = w.burst_remaining;
}

-- The reservation is undone.
unfoldable pub deny : ℤ → ℤ → Readings → Window → Option (Window × BudgetStatus × Bool)
deny limit est r w = do
  w' ← add (sub64 (pos 0) est) r.at_undo w
  let (after, used) = total r.at_after w'
  some (after, status_of after used limit, false)

-- Reserve once the tokens are in the window and their total is known.
unfoldable pub settle : ℤ → ℤ → Readings → Window × ℤ → Option (Window × BudgetStatus × Bool)
unfolding deny
settle limit est r (w, used) =
    if leb_ℤ used limit
    then some (w, status_of w used limit, true)
    else (let (w', consumed) = consume_burst (sub64 used limit) w in
        if consumed then some (w', status_of w' used limit, true) else deny limit est r w')

unfoldable pub reserve_window : ℤ → ℤ → Readings → Window → Option (Window × BudgetStatus × Bool)
unfolding settle
reserve_window limit est r w = do w' ← add est r.at_add w; settle limit est r (total r.at_total w')

abbrev pub unknown : Reservation
unknown = record {
  status = record {
    window_tokens_used = pos 0;
    window_tokens_limit = pos 0;
    burst_remaining = pos 0;
  };
  allowed = false;
  err = some unknown_workload;
}

unfoldable pub reserve_state :
    String → ℤ → Readings → Tracker → Option WorkloadState → Option (Tracker × Reservation)
unfolding reserve_window
reserve_state id est r t none = some (t, unknown)
reserve_state id est r t (some ws) = do
  (w, status, allowed) ← reserve_window ws.limit_tokens est r ws.window
  some (
    insert id (record ws { window = w }) t,
    record { status = status; allowed = allowed; err = none },
  )

unfoldable pub reserve : String → ℤ → Readings → Tracker → Option (Tracker × Reservation)
unfolding reserve_state
reserve id est r t = reserve_state id est r t (lookup id t)

-- Burst comes back for what the total lies below the limit.
unfoldable pub replenish : ℤ → Window × ℤ → Window
replenish limit (w, used) = if ltb_ℤ used limit then replenish_burst (sub64 limit used) w else w

unfoldable pub record_window : ℤ → ℤ → ℕ → ℕ → Window → Option Window
unfolding replenish
record_window limit tokens at_add at_total w = do
  w' ← add tokens at_add w
  some (replenish limit (total at_total w'))

unfoldable pub record_state : String → ℤ → ℕ → ℕ → Tracker → Option WorkloadState → Option Tracker
unfolding record_window
record_state id tokens at_add at_total t none = some t
record_state id tokens at_add at_total t (some ws) = do
  w ← record_window ws.limit_tokens tokens at_add at_total ws.window
  some (insert id (record ws { window = w }) t)

-- Record: the tokens of the report are the delta to apply.
unfoldable pub record_usage : String → ℤ → ℕ → ℕ → Tracker → Option Tracker
unfolding record_state
record_usage id tokens at_add at_total t = record_state id tokens at_add at_total t (lookup id t)

unfoldable pub status_state :
    String → ℕ → Tracker → Option WorkloadState → Tracker × Option BudgetStatus
status_state id now t none = (t, none)
status_state id now t (some ws) =
    let (w, used) = total now ws.window in
    (insert id (record ws { window = w }) t, some (status_of w used ws.limit_tokens))

-- Status: `none` is ErrUnknownWorkload.
unfoldable pub status : String → ℕ → Tracker → Tracker × Option BudgetStatus
unfolding status_state
status id now t = status_state id now t (lookup id t)

-- StatusAll, in the order of the entries; `now` gives the reading for each workload.
unfoldable pub status_all : (String → ℕ) → Tracker → Tracker × Dict WorkloadStatus
status_all now [] = ([], [])
status_all now ((id, ws) ∷ t) =
    let (w, used) = total (now id) ws.window in
    let (t', result) = status_all now t in
    (
      (id, record ws { window = w }) ∷ t',
      (
        id,
        record {
          limit_tokens = ws.limit_tokens;
          window_tokens_used = used;
          burst_remaining = w.burst_remaining;
          window_seconds = ws.window_seconds;
        },
      )
          ∷ result,
    )
