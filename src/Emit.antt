-- ===== src/Emit.antt =====
-- internal/emit/emitter.go: telemetry events, and the emitter that never blocks its callers.
pub mod Laws
pub mod Drained
mod Tests
use koshi_runtime.Base.{
  ℕ, ◌+◌, Bool, true, false, List, [], ◌∷◌, ◌++◌, Option, none, some, ◌≡◌, String, str_eq, ltb,
  length, if◌then◌else◌,
}
use koshi_runtime.Base.Dict.{Dict}
use koshi_runtime.Base.Int.{ℤ}

-- The values of attributes that the runtime uses: a text, a number, and the texts of
-- strconv.FormatInt and strconv.FormatBool.
pub data Attribute : Type 0 where
  text : String → Attribute
  number : ℤ → Attribute
  decimal : ℤ → Attribute
  flag : Bool → Attribute

pub record Event : Type 0 where
  pub type : String
  pub workload_id : String
  pub attributes : Dict Attribute
  pub severity : String

abbrev pub event_budget_reconciled : String
event_budget_reconciled = "budget_reconciled"

abbrev pub default_buffer_size : ℕ
default_buffer_size = 1000

pub data Level : Type 0 where
  info warn error : Level

-- A record of the logger: the level of the event's severity, and the event.
pub record LogRecord : Type 0 where
  pub level : Level
  pub event : Event

unfoldable pub level_of : String → Level
level_of severity =
    if str_eq severity "error"
    then Level.error
    else if str_eq severity "warn"
    then Level.warn
    else Level.info

-- The channel, oldest first, the event that the goroutine of drain has received and not logged yet,
-- whether the channel is closed, the count of dropped events, and the log.
pub record LogEmitter : Type 0 where
  pub events : List Event
  pub received : Option Event
  pub closed : Bool
  pub dropped : ℕ
  pub log : List LogRecord

abbrev pub new_log_emitter : LogEmitter
new_log_emitter = record { events = []; received = none; closed = false; dropped = 0; log = [] }

-- A send on a closed channel panics, also under a select with a default.
unfoldable pub emit : Event → LogEmitter → Option LogEmitter
emit ev e =
    if e.closed
    then none
    else if ltb (length e.events) default_buffer_size
    then some (record e { events = e.events ++ (ev ∷ []) })
    else some (record e { dropped = e.dropped + 1 })

-- The body of the loop of drain: the event is logged.
unfoldable pub log_event : Event → LogEmitter → LogEmitter
unfolding level_of
log_event ev e = record e {
  received = none;
  log = e.log ++ (record { level = level_of ev.severity; event = ev } ∷ []);
}

-- The head of the loop: the oldest event of the channel is received.
unfoldable pub receive : List Event → LogEmitter → LogEmitter
receive [] e = e
receive (ev ∷ rest) e = record e { events = rest; received = some ev }

-- The next step of the goroutine.
unfoldable pub drain_one : LogEmitter → LogEmitter
unfolding log_event receive
drain_one e = elim e.received [ none ↦ receive e.events e | some ev ↦ log_event ev e ]

unfoldable pub log_received : LogEmitter → LogEmitter
unfolding log_event
log_received e = elim e.received [ none ↦ e | some ev ↦ log_event ev e ]

-- The loop of drain to its end, over what is in a closed channel.
unfoldable pub drain : List Event → LogEmitter → LogEmitter
unfolding log_received receive
drain [] e = log_received e
drain (ev ∷ rest) e = drain rest (receive (ev ∷ rest) (log_received e))

-- The close of the channel; closing twice panics.
unfoldable pub close : LogEmitter → Option LogEmitter
close e = if e.closed then none else some (record e { closed = true })

abbrev drained : Option LogEmitter → Option LogEmitter
drained none = none
drained (some e) = some (drain e.events e)

-- Close, which returns when drain has emptied the channel.
unfoldable pub close_drained : LogEmitter → Option LogEmitter
unfolding close drain
close_drained e = drained (close e)

-- The interleavings of callers, which emit and close, with the goroutine of drain; the list is what
-- was sent, oldest first.
pub data Run (e : LogEmitter) : LogEmitter → List Event → Type 0 where
  start : Run e e []
  step_emit :
      {f : LogEmitter} {sent : List Event} (ev : Event) (g : LogEmitter)
      → Run e f sent
      → emit ev f ≡ some g
      → Run e g (sent ++ (ev ∷ []))
  step_drain :
      {f : LogEmitter} {sent : List Event} (g : LogEmitter)
      → Run e f sent
      → drain_one f ≡ g
      → Run e g sent
  step_close :
      {f : LogEmitter} {sent : List Event} (g : LogEmitter)
      → Run e f sent
      → close f ≡ some g
      → Run e g sent
