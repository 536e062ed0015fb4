-- ===== src/Emit/Laws.antt =====
-- What becomes of the events that the emitter of internal/emit/emitter.go is given.
use koshi_runtime.Base.{
  ℕ, ◌+◌, ◌≤◌, ◌≡◌, refl, ap, sym, ◌∙◌, true, Bool-cases, Option-cases, Option, none, List, [], ◌∷◌,
  ◌++◌, map, some, inl, inr, ltb, length, length-append, arith,
}
use mathlib.Core.List.{append_assoc, append-nil, map-append}
use mathlib.Core.Option.{some-injective, none-ne-some}
use mathlib.Core.Path.{subst}
use koshi_runtime.Emit.{
  Event, LogEmitter, new_log_emitter, default_buffer_size, emit, log_event, receive, drain_one,
  close, Run, start, step_emit, step_drain, step_close, level_of,
}

-- The first list is the second without as many of its elements as the number says.
pub data IsThinned : List Event → List Event → ℕ → Type 0 where
  nothing : IsThinned [] [] 0
  kept :
      {xs ys : List Event} {n : ℕ} (x : Event)
      → IsThinned xs ys n
      → IsThinned (xs ++ (x ∷ [])) (ys ++ (x ∷ [])) n
  lost :
      {xs ys : List Event} {n : ℕ} (x : Event)
      → IsThinned xs ys n
      → IsThinned xs (ys ++ (x ∷ [])) (n + 1)

abbrev pub in_hand : Option Event → List Event
in_hand none = []
in_hand (some ev) = ev ∷ []

-- What was logged, what is to be logged next, and what is still in the channel.
abbrev pub delivered : LogEmitter → List Event
delivered e = map (λ r. r.event) e.log ++ (in_hand e.received ++ e.events)

-- The emitter loses nothing but what it counts as dropped.
pub record IsFair (e : LogEmitter) (sent : List Event) : Type 0 where
  pub thinned : IsThinned (delivered e) sent e.dropped
  pub bounded : length e.events ≤ default_buffer_size

emit_result :
    (ev : Event) (f g : LogEmitter) (o : LogEmitter)
    → emit ev f ≡ some o
    → emit ev f ≡ some g
    → o ≡ g
emit_result ev f g o e e' = some-injective o g (sym e ∙ e')

emit-IsFair :
    (ev : Event) (f g : LogEmitter) (sent : List Event)
    → emit ev f ≡ some g
    → IsFair f sent
    → IsFair g (sent ++ (ev ∷ []))
unfolding emit
emit-IsFair ev f g sent e r = elim (Bool-cases f.closed) [
  | inl c ↦ absurd (none-ne-some g (sym (rw (emit, c) refl) ∙ e))
  | inr c ↦ elim (Bool-cases (ltb (length f.events) default_buffer_size)) [
    | inl room ↦
        subst (λ x. IsFair x (sent ++ (ev ∷ [])))
          (emit_result ev f g (record f { events = f.events ++ (ev ∷ []) })
            (rw (emit, c, room) refl) e)
          (record {
            thinned =
                rw
                  (
                    sym (append_assoc (in_hand f.received) f.events (ev ∷ [])),
                    sym (
                        append_assoc (map (λ r. r.event) f.log) (in_hand f.received ++ f.events)
                          (ev ∷ [])),
                  )
                  (kept ev r.thinned);
            bounded = ground (arith, length-append f.events (ev ∷ []));
          })
    | inr full ↦
        subst (λ x. IsFair x (sent ++ (ev ∷ [])))
          (emit_result ev f g (record f { dropped = f.dropped + 1 }) (rw (emit, c, full) refl) e)
          (record { thinned = lost ev r.thinned; bounded = r.bounded })
  ]
]

-- An event that is received is still in hand, and one that is logged is still delivered.
pub delivered-receive :
    (q : List Event) (e : LogEmitter)
    → e.events ≡ q
    → e.received ≡ none
    → delivered (receive q e) ≡ delivered e
unfolding receive
delivered-receive [] e h idle = refl
delivered-receive (ev ∷ rest) e h idle = rw (idle, h) refl

pub delivered-log_event :
    (ev : Event) (e : LogEmitter) → e.received ≡ some ev → delivered (log_event ev e) ≡ delivered e
unfolding log_event
delivered-log_event ev e h =
    rw
      (
        h,
        map-append (λ r. r.event) e.log (record { level = level_of ev.severity; event = ev } ∷ []),
      )
      (append_assoc (map (λ r. r.event) e.log) (ev ∷ []) e.events)

receive_bounded :
    (q : List Event) (e : LogEmitter)
    → e.events ≡ q
    → length e.events ≤ default_buffer_size
    → length (receive q e).events ≤ default_buffer_size
unfolding receive
receive_bounded [] e h b = b
receive_bounded (ev ∷ rest) e h b = omega (arith, ap length h, b)

dropped-receive : (q : List Event) (e : LogEmitter) → (receive q e).dropped ≡ e.dropped
unfolding receive
dropped-receive [] e = refl
dropped-receive (ev ∷ rest) e = refl

drain_one-IsFair : (f : LogEmitter) (sent : List Event) → IsFair f sent → IsFair (drain_one f) sent
unfolding drain_one log_event
drain_one-IsFair f sent r = elim (Option-cases f.received) [
  | inl e ↦
      rw (drain_one, e)
        (record {
          thinned = rw (delivered-receive f.events f refl e, dropped-receive f.events f) r.thinned;
          bounded = receive_bounded f.events f refl r.bounded;
        })
  | inr (ev, e) ↦
      rw (drain_one, e)
        (record {
          thinned =
              subst (λ xs. IsThinned xs sent f.dropped) (sym (delivered-log_event ev f e))
                r.thinned;
          bounded = r.bounded;
        })
]

close-IsFair :
    (f g : LogEmitter) (sent : List Event) → close f ≡ some g → IsFair f sent → IsFair g sent
unfolding close
close-IsFair f g sent e r = elim (Bool-cases f.closed) [
  | inl c ↦ absurd (none-ne-some g (sym (rw (close, c) refl) ∙ e))
  | inr c ↦
      subst (λ x. IsFair x sent)
        (some-injective (record f { closed = true }) g (sym (rw (close, c) refl) ∙ e))
        (record { thinned = r.thinned; bounded = r.bounded })
]

-- However callers and the goroutine interleave, what was logged, the event that the goroutine
-- has received and not logged yet, and what waits in the channel are the events sent, in their
-- order and none twice, less as many as are counted as dropped, and the channel never holds more
-- than its size.
pub Run-IsFair : {e : LogEmitter} {sent : List Event} → Run new_log_emitter e sent → IsFair e sent
unfolding drain_one close
Run-IsFair start = record { thinned = nothing; bounded = omega arith }
Run-IsFair (step_emit {f = f} {sent = sent} ev g run e) = emit-IsFair ev f g sent e (Run-IsFair run)
Run-IsFair (step_drain {f = f} {sent = sent} g run e) =
    subst (λ x. IsFair x sent) e (drain_one-IsFair f sent (Run-IsFair run))
Run-IsFair (step_close {f = f} {sent = sent} g run e) = close-IsFair f g sent e (Run-IsFair run)

-- Nothing is left out of a list that is thinned by nothing.
thinned_by_none : {xs ys : List Event} {n : ℕ} → IsThinned xs ys n → n ≡ 0 → xs ≡ ys
thinned_by_none nothing e = refl
thinned_by_none (kept x t) e = ap (λ l. l ++ (x ∷ [])) (thinned_by_none t e)
thinned_by_none (lost x t) e = absurd (omega (arith, e))

-- When nothing waits and nothing was dropped, the log is exactly what was sent, in order.
Run-complete :
    {e : LogEmitter} {sent : List Event}
    → Run new_log_emitter e sent
    → e.dropped ≡ 0
    → e.events ≡ []
    → e.received ≡ none
    → map (λ r. r.event) e.log ≡ sent
Run-complete {e} {sent} run none_dropped empty idle =
    sym (append-nil (map (λ r. r.event) e.log))
    ∙ ap (λ q. map (λ r. r.event) e.log ++ (in_hand none ++ q)) (sym empty)
    ∙ ap (λ o. map (λ r. r.event) e.log ++ (in_hand o ++ e.events)) (sym idle)
    ∙ thinned_by_none (Run-IsFair run).thinned none_dropped
