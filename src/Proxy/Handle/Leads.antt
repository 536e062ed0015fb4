-- ===== src/Proxy/Handle/Leads.antt =====
-- Rules for steps of internal/proxy/proxy.go that change a property of the state.
use koshi_runtime.Base.{Bool, true, false, if◌then◌else◌}
use koshi_runtime.Proxy.Effects.{
  State, Response, Outcome, next, respond, panicked, M, ◌>>=◌, ◌>>◌, bind_outcome, sent,
}
use koshi_runtime.Proxy.Handle.Keeps.{Keeps, outcome_keeps, sent_outcome_keeps}

-- A step that leads from one property of the state to another.
pub record Leads {ℓ} {A : Type ℓ} (P Q : State → Type 0) (m : M A) : Type 0 where
  pub after : (s : State) → P s → Q (m s).0

outcome_leads {ℓ κ} :
    {A : Type ℓ} {B : Type κ} (P Q : State → Type 0) (r : State × Outcome A) (f : A → M B)
    → P r.0
    → ((s : State) → P s → Q s)
    → ((a : A) → Leads P Q (f a))
    → Q (bind_outcome r f).0
outcome_leads P Q (s, next a) f p w k = (k a).after s p
outcome_leads P Q (s, respond r) f p w k = w s p
outcome_leads P Q (s, panicked r) f p w k = w s p

module _ {P Q : State → Type 0} where
  pub then-Leads {κ} :
      {B : Type κ} (m : M (Unit {0})) (k : M B)
      → Keeps P m
      → ((s : State) → P s → Q s)
      → Leads P Q k
      → Leads P Q (m >> k)
  then-Leads m k keep w l = record {
    after = λ s p. outcome_leads P Q (m s) (λ _. k) (keep.after s p) w (λ _. l);
  }

  pub Leads-then {κ} :
      {B : Type κ} (m : M (Unit {0})) (k : M B) → Leads P Q m → Keeps Q k → Leads P Q (m >> k)
  Leads-then m k l keep = record {
    after = λ s p. outcome_keeps Q (m s) (λ _. k) (l.after s p) (λ _. keep);
  }

  pub Leads-bind {ℓ κ} :
      {A : Type ℓ} {B : Type κ} {R : State → Type 0} (m : M A) (f : A → M B)
      → Leads P Q m
      → ((s : State) → Q s → R s)
      → ((a : A) → Leads Q R (f a))
      → Leads P R (m >>= f)
  Leads-bind {R = R} m f l w k = record {
    after = λ s p. outcome_leads Q R (m s) f (l.after s p) w k;
  }

  pub Keeps-Leads {ℓ} : {A : Type ℓ} (m : M A) → Keeps P m → ((s : State) → P s → Q s) → Leads P Q m
  Keeps-Leads m keep w = record { after = λ s p. w (m s).0 (keep.after s p) }

  pub if_Leads :
      (b : Bool) (m k : M (Unit {0})) → Leads P Q m → Leads P Q k → Leads P Q (if b then m else k)
  if_Leads true m k l l' = l
  if_Leads false m k l l' = l'

  pub sent-Leads : (r : Response) (m : M (Unit {0})) → Leads P Q m → Leads P Q (sent r m)
  sent-Leads r m l = record { after = λ s p. sent_outcome_keeps Q r (m s) (l.after s p) }
