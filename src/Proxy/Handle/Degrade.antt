-- ===== src/Proxy/Handle/Degrade.antt =====
-- The degraded mode of ServeHTTP of internal/proxy/proxy.go, and how a request brings it about.
use koshi_runtime.Base.{◌≡◌, refl, true, false, Bool, String, some, inl, inr}
use koshi_runtime.Base.Int.{ℤ}
use koshi_runtime.Config.{Policy}
use koshi_runtime.Identity.{WorkloadIdentity}
use koshi_runtime.Base.{Bool-cases}
use koshi_runtime.Proxy.Effects.{
  Handler, State, Env, M, ◌>>◌, emit_event, is_listener, count, count_tokens,
}
use koshi_runtime.Proxy.Steps.{allow_step, shadow}
use koshi_runtime.Proxy.Handle.{finish, recover, degraded_response}

-- A request whose tokens the counter does not accept panics at the step that allows it, whatever
-- would have come after: the answer is the error of a degraded service, the tracker is left as
-- it was, and the handler is degraded from then on.
pub allow_step-degrades :
    (h : Handler) (env : Env) (i : WorkloadIdentity) (pol : Policy) (p : String) (n : ℤ)
    (streaming : Bool) (k : M (Unit {0})) (s : State)
    → env.accepts n ≡ false
    → let (s', response) = finish h env ((allow_step h env i pol p n streaming >> k) s) in
      (s'.degraded ≡ true) × (s'.tracker ≡ s.tracker) × (response ≡ some degraded_response)
unfolding allow_step shadow count count_tokens emit_event finish recover
allow_step-degrades h env i pol p n streaming k s e = elim (Bool-cases (is_listener h)) [
  | inl l ↦ rw (l, e) (refl, refl, refl)
  | inr l ↦ rw (l, e) (refl, refl, refl)
]
