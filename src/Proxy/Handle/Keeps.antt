-- ===== src/Proxy/Handle/Keeps.antt =====
-- A rule for every property of the state that the effects of internal/proxy/proxy.go keep.
use koshi_runtime.Base.{Option, none, some, String, Bool, true, false, String, if◌then◌else◌}
use koshi_runtime.Base.Int.{ℤ}
use koshi_runtime.Emit.{Event}
use koshi_runtime.Proxy.Effects.{
  Handler, State, Env, Response, Outcome, next, respond, panicked, M, Metric, ◌>>=◌, ◌>>◌,
  bind_outcome, sent_outcome, sent, cut_off, skip, unless, answer, emit_event, count, count_tokens,
}
use koshi_runtime.Proxy.Steps.{reserve_tokens}
use koshi_runtime.Proxy.Upstream.{record_delta}

-- A step after which the property still holds.
pub record Keeps {ℓ} {A : Type ℓ} (P : State → Type 0) (m : M A) : Type 0 where
  pub after : (s : State) → P s → P (m s).0

-- A property that the events and the counters of a handler keep.
pub record IsQuiet (h : Handler) (P : State → Type 0) : Type 0 where
  pub at_emit : (ev : Event) → Keeps P (emit_event h ev)
  pub at_count : (m : Metric) → Keeps P (count m)
  pub at_count_tokens : (env : Env) (n : ℤ) (m : Metric) → Keeps P (count_tokens env n m)

-- A property that all effects of a handler keep.
pub record IsKept (h : Handler) (P : State → Type 0) : Type 0 where
  pub quiet : IsQuiet h P
  pub at_reserve : (env : Env) (key : String) (n : ℤ) → Keeps P (reserve_tokens env key n)
  pub at_record : (env : Env) (key : String) (d : ℤ) → Keeps P (record_delta env key d)
  pub at_degrade : (s : State) → P s → P (record s { degraded = true })

pub outcome_keeps {ℓ κ} :
    {A : Type ℓ} {B : Type κ} (P : State → Type 0) (r : State × Outcome A) (f : A → M B)
    → P r.0
    → ((a : A) → Keeps P (f a))
    → P (bind_outcome r f).0
outcome_keeps P (s, next a) f p k = (k a).after s p
outcome_keeps P (s, respond r) f p k = p
outcome_keeps P (s, panicked r) f p k = p

pub choice_keeps :
    (P : State → Type 0) (b : Bool) (x y : State × Outcome (Unit {0}))
    → P x.0
    → P y.0
    → P (if b then x else y).0
choice_keeps P true x y p q = p
choice_keeps P false x y p q = q

pub sent_outcome_keeps :
    (P : State → Type 0) (r : Response) (o : State × Outcome (Unit {0}))
    → P o.0
    → P (sent_outcome r o).0
sent_outcome_keeps P r (s, next _) p = p
sent_outcome_keeps P r (s, respond _) p = p
sent_outcome_keeps P r (s, panicked _) p = p

module _ {P : State → Type 0} where
  pub bind-Keeps {ℓ κ} :
      {A : Type ℓ} {B : Type κ} (m : M A) (f : A → M B)
      → Keeps P m
      → ((a : A) → Keeps P (f a))
      → Keeps P (m >>= f)
  bind-Keeps m f keep k = record { after = λ s p. outcome_keeps P (m s) f (keep.after s p) k }

  pub then-Keeps {κ} :
      {B : Type κ} (m : M (Unit {0})) (k : M B) → Keeps P m → Keeps P k → Keeps P (m >> k)
  then-Keeps m k keep keep' = record {
    after = λ s p. outcome_keeps P (m s) (λ _. k) (keep.after s p) (λ _. keep');
  }

  pub if_Keeps :
      (b : Bool) (m k : M (Unit {0})) → Keeps P m → Keeps P k → Keeps P (if b then m else k)
  if_Keeps true m k keep keep' = keep
  if_Keeps false m k keep keep' = keep'

  pub unless-Keeps : (b : Bool) (m : M (Unit {0})) → Keeps P m → Keeps P (unless b m)
  unless-Keeps true m keep = record { after = λ s p. p }
  unless-Keeps false m keep = record { after = λ s p. keep.after s p }

  pub sent-Keeps : (r : Response) (m : M (Unit {0})) → Keeps P m → Keeps P (sent r m)
  sent-Keeps r m keep = record { after = λ s p. sent_outcome_keeps P r (m s) (keep.after s p) }

  pub answer-Keeps {ℓ} : {A : Type ℓ} (r : Response) → Keeps P (answer {A = A} r)
  answer-Keeps r = record { after = λ s p. p }

  pub cut_off-Keeps : (b : Option String) → Keeps P (cut_off b)
  cut_off-Keeps none = record { after = λ s p. p }
  cut_off-Keeps (some e) = record { after = λ s p. p }

  pub skip-Keeps : Keeps P skip
  skip-Keeps = record { after = λ s p. p }
