-- ===== src/Emit/Drained.antt =====
-- Close of internal/emit/emitter.go, which waits for its goroutine.
use koshi_runtime.Base.{
  ◌≡◌, refl, ap, sym, ◌∙◌, true, false, List, [], ◌∷◌, ◌++◌, map, some, none, inl, inr,
  Option-cases,
}
use mathlib.Core.List.{append-nil}
use koshi_runtime.Emit.{
  Event, LogEmitter, new_log_emitter, log_event, receive, log_received, drain, close, close_drained,
  Run,
}
use koshi_runtime.Emit.Laws.{
  IsThinned, in_hand, delivered, delivered-receive, delivered-log_event, Run-IsFair,
}

-- Logging the event in hand changes nothing but the log, and leaves none in hand.
log_received-idle :
    (e : LogEmitter)
    → ((log_received e).received ≡ none)
      × ((log_received e).events ≡ e.events)
      × (delivered (log_received e) ≡ delivered e)
      × ((log_received e).dropped ≡ e.dropped)
      × ((log_received e).closed ≡ e.closed)
unfolding log_received log_event
log_received-idle e = elim (Option-cases e.received) [
  | inl h ↦
      rw (log_received, h)
        (h, refl, ap (λ o. map (λ r. r.event) e.log ++ (in_hand o ++ e.events)) h, refl, refl)
  | inr (ev, h) ↦
      rw (log_received, h)
        (
          refl,
          refl,
          delivered-log_event ev e h
              ∙ ap (λ o. map (λ r. r.event) e.log ++ (in_hand o ++ e.events)) h,
          refl,
          refl,
        )
]

-- The loop empties the channel into the log, and keeps the rest.
drain_empties :
    (q : List Event) (e : LogEmitter)
    → e.events ≡ q
    → ((drain q e).events ≡ [])
      × (map (λ r. r.event) (drain q e).log ≡ delivered e)
      × ((drain q e).dropped ≡ e.dropped)
      × ((drain q e).closed ≡ e.closed)
unfolding drain receive
drain_empties [] e h =
    let (idle, same, logged, lost, closed) = log_received-idle e in
    let d = log_received e in
    (
      same ∙ h,
      sym (append-nil (map (λ r. r.event) d.log))
          ∙ ap (λ q. map (λ r. r.event) d.log ++ (in_hand none ++ q)) (sym (same ∙ h))
          ∙ ap (λ o. map (λ r. r.event) d.log ++ (in_hand o ++ d.events)) (sym idle)
          ∙ logged,
      lost,
      closed,
    )
drain_empties (ev ∷ rest) e h =
    let (idle, same, logged, lost, closed) = log_received-idle e in
    let d = log_received e in
    let (empty, logged', lost', closed') = drain_empties rest (receive (ev ∷ rest) d) refl in
    (
      empty,
      logged' ∙ delivered-receive (ev ∷ rest) d (same ∙ h) idle ∙ logged,
      lost' ∙ lost,
      closed' ∙ closed,
    )

-- However callers and the goroutine interleave, Close of an emitter that is not closed returns;
-- every event sent before has then been logged, in the order they were sent and none twice, less
-- as many as are counted as dropped, and the channel is closed and empty.
pub Run-close_drained :
    {e : LogEmitter} {sent : List Event}
    → Run new_log_emitter e sent
    → e.closed ≡ false
    → (e' : LogEmitter) × (close_drained e ≡ some e')
      × IsThinned (map (λ r. r.event) e'.log) sent e'.dropped
      × (e'.events ≡ [])
      × (e'.closed ≡ true)
unfolding close_drained close
Run-close_drained {e} {sent} run open_ =
    let c : LogEmitter = record e { closed = true } in
    let (empty, logged, lost, closed) = drain_empties e.events c refl in
    (drain e.events c, rw open_ refl, rw (logged, lost) (Run-IsFair run).thinned, empty, closed)
