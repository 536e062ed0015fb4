-- ===== src/Proxy/Effects.antt =====
-- The state of the handler of internal/proxy/proxy.go, and its steps: each changes the state and
-- goes on, answers the request, or panics.
use koshi_runtime.Base.{
  ℕ, Bool, List, [], ◌∷◌, ◌++◌, Option, none, some, String, str_eq, if◌then◌else◌, ◌&&◌, not,
}
use koshi_runtime.Base.Dict.{Dict, insert}
use koshi_runtime.Base.Int.{ℤ}
use koshi_runtime.Budget.Tracker.{Tracker, Readings}
use koshi_runtime.Emit.{Event, Attribute, text}
use koshi_runtime.Identity.{Resolver}
use koshi_runtime.Json.{Text, Json}
use koshi_runtime.Policy.{Engine}
use koshi_runtime.Proxy.TokenCount.{RawMap}

-- The counters of internal/proxy/metrics.go, by their labels; the latency histograms are left out.
pub data Metric : Type 0 where
  requests_total : String → String → String → Metric
  enforcement_decisions_total : String → String → Metric
  listener_decisions_total : String → String → String → Metric
  tokens_used_total : String → String → String → ℤ → Metric
  listener_tokens_total : String → String → String → ℤ → Metric

pub record Handler : Type 0 where
  pub resolver : Resolver
  pub policy_engine : Engine
  pub upstreams : Dict String
  pub sse_extraction : Bool
  pub version : String
  pub genops_spec_version : String
  pub mode : String
  pub listener_accounting_key : String

-- What changes: the budgets, the flag `degraded`, and what was emitted and counted, oldest first.
pub record State : Type 0 where
  pub tracker : Tracker
  pub degraded : Bool
  pub events : List Event
  pub metrics : List Metric

pub record Url : Type 0 where
  pub scheme : Text
  pub host : Text
  pub path : Text
  pub raw_query : Text

pub record Request : Type 0 where
  pub header : String → String
  pub host : Text
  pub url : Url
  pub body : Text

-- What is written behind another body belongs to the same answer.
pub data Body : Type 0 where
  json : Dict Attribute → Body
  bytes : Text → Body
  both : Body → Body → Body

-- The header Retry-After is a number, beside the other headers.
pub record Response : Type 0 where
  pub status : ℕ
  pub headers : Dict String
  pub retry_after : Option ℕ
  pub body : Body

-- What the upstream does: it fails to answer, or answers in pieces, which may break off.
pub data Reply : Type 0 where
  no_reply : String → Reply
  reply : ℕ → Text → List Text → Option String → Reply

-- What is not of the source: the grammar of JSON, url.Parse, whether a Prometheus counter accepts
-- an increment, the upstream, the clock, and the texts of a panic.
pub record Env : Type 0 where
  pub parse : Text → Option Json
  pub marshal : RawMap → Text
  pub parse_url : String → Option Url
  pub accepts : ℤ → Bool
  pub upstream : Url → Text → Reply
  pub readings : Readings
  pub record_add : ℕ
  pub record_total : ℕ
  pub panic_text : String
  pub stack : String

-- A panic may come when the answer has been sent.
pub data Outcome {ℓ} (A : Type ℓ) : Type ℓ where
  next : A → Outcome A
  respond : Response → Outcome A
  panicked : Option Response → Outcome A

abbrev pub M {ℓ} : Type ℓ → Type ℓ
M A = State → State × Outcome A

abbrev pub bind_outcome {ℓ κ} :
    {A : Type ℓ} {B : Type κ} → State × Outcome A → (A → M B) → State × Outcome B
bind_outcome (s, next a) f = f a s
bind_outcome (s, respond r) f = (s, respond r)
bind_outcome (s, panicked r) f = (s, panicked r)

infixl 5 ◌>>◌ ◌>>=◌
abbrev pub ◌>>=◌ {ℓ μ} : {S : Type ℓ} {T : Type μ} → M S → (S → M T) → M T
◌>>=◌ m f s = bind_outcome (m s) f

abbrev pub ◌>>◌ {ℓ} : {B : Type ℓ} → M (Unit {0}) → M B → M B
◌>>◌ m k s = bind_outcome (m s) (λ _. k)

abbrev pub return {ℓ} : {A : Type ℓ} → A → M A
return a s = (s, next a)

abbrev pub answer {ℓ} : {A : Type ℓ} → Response → M A
answer r s = (s, respond r)

abbrev pub skip : M (Unit {0})
skip s = (s, next tt)

abbrev pub unless : Bool → M (Unit {0}) → M (Unit {0})
unless b m s = if b then (s, next tt) else m s

-- A panic behind this point comes after the answer.
abbrev pub sent_outcome : Response → State × Outcome (Unit {0}) → State × Outcome (Unit {0})
sent_outcome r (s, next _) = (s, respond r)
sent_outcome r (s, respond r') = (s, respond r)
sent_outcome r (s, panicked _) = (s, panicked (some r))

abbrev pub sent : Response → M (Unit {0}) → M (Unit {0})
sent r m s = sent_outcome r (m s)

-- ReverseProxy panics with http.ErrAbortHandler where the upstream's body breaks off.
abbrev pub cut_off : Option String → M (Unit {0})
cut_off none s = (s, next tt)
cut_off (some _) s = (s, panicked none)

-- emitEvent: the attributes with the version of the specification.
unfoldable pub emit_event : Handler → Event → M (Unit {0})
emit_event h ev s = (
  record s {
    events =
        s.events
        ++ (record ev {
          attributes = insert "genops.spec.version" (text h.genops_spec_version) ev.attributes;
        }
            ∷ []);
  },
  next tt,
)

-- Inc of a counter.
unfoldable pub count : Metric → M (Unit {0})
count m s = (record s { metrics = s.metrics ++ (m ∷ []) }, next tt)

-- Add of a counter, which panics at a value that the counter does not accept.
unfoldable pub count_tokens : Env → ℤ → Metric → M (Unit {0})
count_tokens env n m s =
    if env.accepts n
    then (record s { metrics = s.metrics ++ (m ∷ []) }, next tt)
    else (s, panicked none)

abbrev pub is_listener : Handler → Bool
is_listener h = str_eq h.mode "listener"

unfoldable pub accounting_key : Handler → String → String
accounting_key h id =
    if is_listener h && not (str_eq h.listener_accounting_key "")
    then h.listener_accounting_key
    else id
