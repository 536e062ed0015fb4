-- ===== src/Budget/Tracker/Settled.antt =====
-- A reservation that Reserve of internal/budget/tracker.go grants and Record settles, on the whole
-- map.
use koshi_runtime.Base.{ℕ, ◌≡◌, ◌≢◌, refl, ◌∙◌, true, some, none, String, arith, eq_iff}
use koshi_runtime.Base.Dict.{lookup, insert, lookup-insert}
use koshi_runtime.Base.Int.{ℤ, ◌+ℤ◌, ◌-ℤ◌, sub64, sub64-eq, int_laws}
use koshi_runtime.Budget.Window.{Window, advance}
use koshi_runtime.Budget.Tracker.{
  Tracker, WorkloadState, BudgetStatus, Reservation, reserve, reserve_state, reserve_window,
  record_usage, record_state,
}
use koshi_runtime.Budget.Tracker.Frame.{insert_other}
use koshi_runtime.Budget.Tracker.Reserve.{still, IsReady}
use koshi_runtime.Budget.Tracker.Reconcile.{IsSettling, reserve-record}

-- What Reserve returns for a reservation that it grants.
abbrev pub granted : BudgetStatus → Reservation
granted bs = record { status = bs; allowed = true; err = none }

abbrev pub with_window : WorkloadState → Window → WorkloadState
with_window ws w = record ws { window = w }

lookup_inserted :
    (key : String) (ws : WorkloadState) (t : Tracker) → lookup key (insert key ws t) ≡ some ws
lookup_inserted key ws t = ground (arith, lookup-insert key key ws t, eq_iff key key)

-- The delta of the handler does not wrap where Record settles it.
delta_small :
    (limit est actual : ℤ) (t : ℕ) (w : Window)
    → IsSettling limit (actual -ℤ est) t w
    → sub64 actual est ≡ actual -ℤ est
delta_small limit est actual t w s = sub64-eq actual est (omega (int_laws, s.fits))

module _ (key : String) (est actual : ℤ) (t : ℕ) (tr : Tracker) (ws : WorkloadState) (w' : Window)
    (bs : BudgetStatus) (found : lookup key tr ≡ some ws)
    (ready : IsReady ws.limit_tokens est t ws.window)
    (granted_window : reserve_window ws.limit_tokens est (still t) ws.window ≡ some (w', bs, true))
    (settling : IsSettling ws.limit_tokens (actual -ℤ est) t w') where
  pub reserve-granted :
      reserve key est (still t) tr ≡ some (insert key (with_window ws w') tr, granted bs)
  unfolding reserve reserve_state
  reserve-granted = rw (found, reserve_state, granted_window) refl

  pub record_settles :
      (other : String)
      → other ≢ key
      → (tr' : Tracker) × (w'' : Window) × (record_usage key
            (sub64 actual est)
            t
            t
            (insert key (with_window ws w') tr)
          ≡ some tr')
        × (lookup key tr' ≡ some (with_window ws w''))
        × (w''.total_tokens ≡ (advance t ws.window).total_tokens +ℤ actual)
        × (lookup other tr' ≡ lookup other tr)
  unfolding record_usage record_state
  record_settles other ne =
      let (w'', run, total) =
        reserve-record ws.limit_tokens est actual t ws.window ready granted_window settling in
      (
        insert key (with_window ws w'') (insert key (with_window ws w') tr),
        w'',
        rw
            (
              lookup_inserted key (with_window ws w') tr,
              record_state,
              delta_small ws.limit_tokens est actual t w' settling,
              run,
            )
            refl,
        lookup_inserted key (with_window ws w'') _,
        total,
        insert_other key other (with_window ws w'') (insert key (with_window ws w') tr) ne
            ∙ insert_other key other (with_window ws w') tr ne,
      )
