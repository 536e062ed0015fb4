-- ===== src/Proxy/Handle/Stamped.antt =====
-- The version attribute that emitEvent of internal/proxy/proxy.go puts on every event.
use koshi_runtime.Base.{
  ◌≡◌, refl, sym, ◌∙◌, ap, List, [], ◌∷◌, ◌++◌, some, String, inl, inr, Bool-cases, Option-cases,
  true,
}
use koshi_runtime.Budget.Tracker.{reserve, record_usage}
use mathlib.Core.List.{append_assoc, append-nil}
use koshi_runtime.Base.Dict.{lookup, insert, lookup-insert}
use koshi_runtime.Base.Int.{ℤ}
use koshi_runtime.Emit.{Event, text}
use koshi_runtime.Proxy.Effects.{
  Handler, State, Env, Request, Metric, emit_event, count, count_tokens,
}
use koshi_runtime.Proxy.Steps.{reserve_tokens}
use koshi_runtime.Proxy.Upstream.{record_delta}
use koshi_runtime.Proxy.Handle.{serve_http}
use koshi_runtime.Proxy.Handle.Flow.{serve_http_keeps}
use koshi_runtime.Proxy.Handle.Keeps.{IsKept}

-- An event that says the version of the specification, beside whatever else.
abbrev pub IsStamped : String → Event → Type 0
IsStamped version ev = lookup "genops.spec.version" ev.attributes ≡ some (text version)

abbrev pub AllStamped : String → List Event → Type 0
AllStamped version [] = Unit
AllStamped version (ev ∷ evs) = IsStamped version ev × AllStamped version evs

AllStamped-append :
    (version : String) (evs : List Event) (ev : Event)
    → AllStamped version evs
    → IsStamped version ev
    → AllStamped version (evs ++ (ev ∷ []))
AllStamped-append version [] ev all one = (one, tt)
AllStamped-append version (x ∷ evs) ev (first, all) one =
    (first, AllStamped-append version evs ev all one)

-- What was emitted since `before` is stamped, and stands behind it.
abbrev Extends : String → List Event → State → Type 0
Extends version before s =
    (added : List Event) × (s.events ≡ before ++ added) × AllStamped version added

stamped :
    (version : String) (ev : Event)
    → IsStamped version
        (record ev { attributes = insert "genops.spec.version" (text version) ev.attributes })
stamped version ev =
    lookup-insert "genops.spec.version" "genops.spec.version" (text version) ev.attributes

module _ (h : Handler) (before : List Event) where
  emit-Extends :
      (ev : Event) (s : State)
      → Extends h.genops_spec_version before s
      → Extends h.genops_spec_version before (emit_event h ev s).0
  unfolding emit_event
  emit-Extends ev s (added, e, all) =
      let ev' : Event = record ev {
        attributes = insert "genops.spec.version" (text h.genops_spec_version) ev.attributes;
      } in
      (
        added ++ (ev' ∷ []),
        ap (λ evs. evs ++ (ev' ∷ [])) e ∙ append_assoc before added (ev' ∷ []),
        AllStamped-append h.genops_spec_version added ev' all (stamped h.genops_spec_version ev),
      )

  other-Extends :
      (s s' : State)
      → s'.events ≡ s.events
      → Extends h.genops_spec_version before s
      → Extends h.genops_spec_version before s'
  other-Extends s s' e (added, f, all) = (added, e ∙ f, all)

  count_tokens_events :
      (env : Env) (n : ℤ) (m : Metric) (s : State) → (count_tokens env n m s).0.events ≡ s.events
  unfolding count_tokens
  count_tokens_events env n m s = elim (Bool-cases (env.accepts n)) [
    | inl e ↦ rw e refl
    | inr e ↦ rw e refl
  ]

  reserve_events :
      (env : Env) (key : String) (n : ℤ) (s : State)
      → (reserve_tokens env key n s).0.events ≡ s.events
  unfolding reserve_tokens
  reserve_events env key n s = elim (Option-cases (reserve key n env.readings s.tracker)) [
    | inl e ↦ rw e refl
    | inr (_, e) ↦ rw e refl
  ]

  record_events :
      (env : Env) (key : String) (d : ℤ) (s : State)
      → (record_delta env key d s).0.events ≡ s.events
  unfolding record_delta
  record_events env key d s =
      elim (Option-cases (record_usage key d env.record_add env.record_total s.tracker)) [
        | inl e ↦ rw e refl
        | inr (_, e) ↦ rw e refl
      ]

  Extends-IsKept : IsKept h (Extends h.genops_spec_version before)
  unfolding count
  Extends-IsKept = record {
    quiet = record {
      at_emit = λ ev. record { after = emit-Extends ev };
      at_count = λ m. record { after = λ s p. other-Extends s (count m s).0 refl p };
      at_count_tokens = λ env n m. record {
        after = λ s p. other-Extends s (count_tokens env n m s).0 (count_tokens_events env n m s) p;
      };
    };
    at_reserve = λ env key n. record {
      after = λ s p. other-Extends s (reserve_tokens env key n s).0 (reserve_events env key n s) p;
    };
    at_record = λ env key d. record {
      after = λ s p. other-Extends s (record_delta env key d s).0 (record_events env key d s) p;
    };
    at_degrade = λ s p. other-Extends s (record s { degraded = true }) refl p;
  }

-- Whatever the handler, the request, the upstream and the clock are, ServeHTTP, also where it
-- panics and recovers, adds to the events emitted before and changes none of them; each that it
-- adds says the handler's version of the specification under `genops.spec.version`.
pub serve_http-AllStamped :
    (h : Handler) (env : Env) (r : Request) (s : State)
    → (added : List Event) × ((serve_http h env r s).0.events ≡ s.events ++ added)
      × AllStamped h.genops_spec_version added
serve_http-AllStamped h env r s =
    serve_http_keeps h (Extends-IsKept h s.events) env r s ([], sym (append-nil s.events), tt)
