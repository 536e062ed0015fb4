-- ===== src/Budget/Tracker/Frame.antt =====
-- Reserve and Record of internal/budget/tracker.go on the whole map, at any readings of the clock.
use koshi_runtime.Base.{
  ℕ, ◌≡◌, ◌≢◌, refl, inl, inr, true, false, Bool, some, none, String, eq_iff, arith, Bool-cases,
  Option-cases,
}
use koshi_runtime.Base.Dict.{lookup, insert, lookup-insert}
use koshi_runtime.Base.Int.{ℤ, pos, sub64, leb_ℤ}
use koshi_runtime.Budget.Window.{Window, advance, deposit, total, consume_burst, replenish_burst}
use koshi_runtime.Budget.Window.Valid.{IsValid, advance-IsValid, deposit-IsValid, add-some}
use koshi_runtime.Budget.Tracker.{
  Tracker, WorkloadState, BudgetStatus, Readings, Reservation, unknown, status_of, deny, settle,
  reserve_window, reserve_state, reserve, replenish, record_window, record_state, record_usage,
}

pub total-IsValid : (t : ℕ) (w : Window) → IsValid w → IsValid (total t w).0
unfolding total
total-IsValid t w v = advance-IsValid t w v

consume_burst-IsValid : (k : ℤ) (w : Window) → IsValid w → IsValid (consume_burst k w).0
unfolding consume_burst
consume_burst-IsValid k w v = ground arith

deny_runs :
    (limit est : ℤ) (r : Readings) (w : Window)
    → IsValid w
    → (w' : Window) × (st : BudgetStatus) × (deny limit est r w ≡ some (w', st, false)) × IsValid w'
unfolding deny
deny_runs limit est r w v =
    let k = sub64 (pos 0) est in
    let d = deposit k (advance r.at_undo w) in
    (
      (total r.at_after d).0,
      status_of (total r.at_after d).0 (total r.at_after d).1 limit,
      rw (add-some k r.at_undo w v),
      total-IsValid r.at_after d (deposit-IsValid k _ (advance-IsValid r.at_undo w v)),
    )

settle_runs :
    (limit est : ℤ) (r : Readings) (w : Window) (used : ℤ)
    → IsValid w
    → (w' : Window) × (st : BudgetStatus) × (b : Bool) × (settle limit est r (w, used)
        ≡ some (w', st, b))
      × IsValid w'
unfolding settle
settle_runs limit est r w used v = elim (Bool-cases (leb_ℤ used limit)) [
  | inl within ↦ (w, status_of w used limit, true, rw within, v)
  | inr over ↦ elim (Bool-cases (consume_burst (sub64 used limit) w).1) [
    | inl paid ↦
        let c = (consume_burst (sub64 used limit) w).0 in
        (
          c,
          status_of c used limit,
          true,
          rw (over, paid),
          consume_burst-IsValid (sub64 used limit) w v,
        )
    | inr short ↦
        let c = (consume_burst (sub64 used limit) w).0 in
        let (w', st, e, v') =
          deny_runs limit est r c (consume_burst-IsValid (sub64 used limit) w v) in
        (w', st, false, rw (over, short) e, v')
  ]
]

pub reserve_window_runs :
    (limit est : ℤ) (r : Readings) (w : Window)
    → IsValid w
    → (w' : Window) × (st : BudgetStatus) × (b : Bool) × (reserve_window limit est r w
        ≡ some (w', st, b))
      × IsValid w'
unfolding reserve_window
reserve_window_runs limit est r w v =
    let d = deposit est (advance r.at_add w) in
    let vd = deposit-IsValid est _ (advance-IsValid r.at_add w v) in
    let (w', st, b, e, v') =
      settle_runs limit est r _ (total r.at_total d).1 (total-IsValid r.at_total d vd) in
    (w', st, b, rw (add-some est r.at_add w v) e, v')

-- Every registered window is valid.
abbrev pub AllValid : Tracker → Type 0
AllValid t = (k : String) (ws : WorkloadState) → lookup k t ≡ some ws → IsValid ws.window

pub insert-AllValid :
    (id : String) (ws : WorkloadState) (t : Tracker)
    → AllValid t
    → IsValid ws.window
    → AllValid (insert id ws t)
insert-AllValid id ws t all v k x e = ground (arith, lookup-insert id k ws t, all k x)

pub insert_other :
    (id k : String) (ws : WorkloadState) (t : Tracker)
    → k ≢ id
    → lookup k (insert id ws t) ≡ lookup k t
insert_other id k ws t ne = ground (arith, lookup-insert id k ws t, eq_iff id k)

pub reserve_runs :
    (id : String) (est : ℤ) (r : Readings) (t : Tracker)
    → AllValid t
    → (t' : Tracker) × (res : Reservation) × (reserve id est r t ≡ some (t', res))
      × AllValid t'
      × ((k : String) → k ≢ id → lookup k t' ≡ lookup k t)
unfolding reserve reserve_state
reserve_runs id est r t all = elim (Option-cases (lookup id t)) [
  | inl e ↦ (t, unknown, rw e, all, λ k ne. refl)
  | inr (ws, e) ↦
      let (w', st, b, run, v) = reserve_window_runs ws.limit_tokens est r ws.window (all id ws e) in
      (
        insert id (record ws { window = w' }) t,
        record { status = st; allowed = b; err = none },
        rw (e, reserve_state, run),
        insert-AllValid id (record ws { window = w' }) t all v,
        λ k ne. insert_other id k (record ws { window = w' }) t ne,
      )
]

replenish-IsValid :
    (limit : ℤ) (w : Window) (used : ℤ) → IsValid w → IsValid (replenish limit (w, used))
unfolding replenish replenish_burst
replenish-IsValid limit w used v = ground arith

record_window_runs :
    (limit k : ℤ) (at_add at_total : ℕ) (w : Window)
    → IsValid w
    → (w' : Window) × (record_window limit k at_add at_total w ≡ some w') × IsValid w'
unfolding record_window
record_window_runs limit k at_add at_total w v =
    let d = deposit k (advance at_add w) in
    let vd = deposit-IsValid k _ (advance-IsValid at_add w v) in
    (
      replenish limit (total at_total d),
      rw (add-some k at_add w v),
      replenish-IsValid limit _ (total at_total d).1 (total-IsValid at_total d vd),
    )

pub record_usage_runs :
    (id : String) (k : ℤ) (at_add at_total : ℕ) (t : Tracker)
    → AllValid t
    → (t' : Tracker) × (record_usage id k at_add at_total t ≡ some t')
      × AllValid t'
      × ((j : String) → j ≢ id → lookup j t' ≡ lookup j t)
unfolding record_usage record_state
record_usage_runs id k at_add at_total t all = elim (Option-cases (lookup id t)) [
  | inl e ↦ (t, rw e, all, λ j ne. refl)
  | inr (ws, e) ↦
      let (w', run, v) =
        record_window_runs ws.limit_tokens k at_add at_total ws.window (all id ws e) in
      (
        insert id (record ws { window = w' }) t,
        rw (e, record_state, run),
        insert-AllValid id (record ws { window = w' }) t all v,
        λ j ne. insert_other id j (record ws { window = w' }) t ne,
      )
]

-- Reserve returns on valid windows whatever the clock does between its steps; it keeps every
-- window valid, and leaves the state of every workload but its own as it was.
reserve_others :
    (id : String) (est : ℤ) (r : Readings) (t : Tracker) (k : String)
    → AllValid t
    → k ≢ id
    → (t' : Tracker) × (res : Reservation) × (reserve id est r t ≡ some (t', res))
      × AllValid t'
      × (lookup k t' ≡ lookup k t)
reserve_others id est r t k all ne =
    let (t', res, run, all', frame) = reserve_runs id est r t all in
    (t', res, run, all', frame k ne)

-- Record returns on valid windows, for a workload that is registered and for one that is not; it
-- keeps every window valid, and leaves the state of every workload but its own as it was.
record_usage_others :
    (id : String) (n : ℤ) (at_add at_total : ℕ) (t : Tracker) (k : String)
    → AllValid t
    → k ≢ id
    → (t' : Tracker) × (record_usage id n at_add at_total t ≡ some t')
      × AllValid t'
      × (lookup k t' ≡ lookup k t)
record_usage_others id n at_add at_total t k all ne =
    let (t', run, all', frame) = record_usage_runs id n at_add at_total t all in
    (t', run, all', frame k ne)
