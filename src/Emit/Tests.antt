-- ===== src/Emit/Tests.antt =====
-- The emitter of internal/emit/emitter.go on one event.
use koshi_runtime.Base.{◌≡◌, refl, [], ◌∷◌, false, true, map, some, none}
use koshi_runtime.Emit.{
  Event, LogEmitter, info, new_log_emitter, emit, drain_one, receive, log_event, level_of, Run,
  start, step_emit, step_drain, close_drained,
}
use koshi_runtime.Emit.Laws.{IsFair, IsThinned, Run-IsFair}
use koshi_runtime.Emit.Drained.{Run-close_drained}

abbrev allowed : Event
allowed = record {
  type = "request_allowed";
  workload_id = "agent";
  attributes = [];
  severity = "info";
}

abbrev logged : LogEmitter
logged = record {
  events = [];
  received = none;
  closed = false;
  dropped = 0;
  log = record { level = info; event = allowed } ∷ [];
}

waiting-Run : Run new_log_emitter (record new_log_emitter { events = allowed ∷ [] }) (allowed ∷ [])
unfolding emit
waiting-Run = step_emit allowed (record new_log_emitter { events = allowed ∷ [] }) start refl

received-Run :
    Run new_log_emitter (record new_log_emitter { received = some allowed }) (allowed ∷ [])
unfolding emit drain_one receive
received-Run = step_drain (record new_log_emitter { received = some allowed }) waiting-Run refl

one-Run : Run new_log_emitter logged (allowed ∷ [])
unfolding drain_one log_event level_of
one-Run = step_drain logged received-Run refl

Run-IsFair_example : IsFair logged (allowed ∷ [])
Run-IsFair_example = Run-IsFair one-Run

-- Close with an event that was received and not logged yet.
Run-close_drained_example :
    (e' : LogEmitter) × (close_drained (record new_log_emitter { received = some allowed })
      ≡ some e')
    × IsThinned (map (λ r. r.event) e'.log) (allowed ∷ []) e'.dropped
    × (e'.events ≡ [])
    × (e'.closed ≡ true)
Run-close_drained_example = Run-close_drained received-Run refl
