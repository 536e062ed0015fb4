-- ===== src/Startup/Wire.antt =====
-- The wiring of cmd/koshi/main.go: the resolver, the engine, and the budgets that are registered.
pub mod Policies
pub mod Registers
pub mod Fits
pub mod Runs
pub mod Loads
pub mod Starts
pub mod Sidecar
pub mod Pods
use koshi_runtime.Base.{
  ℕ, Bool, true, false, not, List, [], ◌∷◌, Option, none, some, String, str_eq, ◌<>◌, if◌then◌else◌,
}
use koshi_runtime.Budget.Tracker.{Tracker, BudgetParams, new_tracker, register}
use koshi_runtime.Config.{Config, Workload, Policy, sse_extraction_enabled}
use koshi_runtime.Identity.{no_identity, Resolver, by_header, by_pod, new_pod_resolver}
use koshi_runtime.Policy.{Engine, by_map, override, new_map_engine, lookup_policy}
use koshi_runtime.Proxy.Effects.{Handler, State}
use koshi_runtime.Proxy.Handle.{new_handler}
use koshi_runtime.Startup.Load.{
  Exit, Process, unknown_policy, unresolvable_workload, find_policy, load_config,
}
use koshi_runtime.Base.Result.{ok, err}

-- A start goes on, exits, or panics.
pub data Start {ℓ} (A : Type ℓ) : Type ℓ where
  running : A → Start A
  exited : Exit → Start A
  panicked : Start A

infixl 5 ◌>>=◌
abbrev pub ◌>>=◌ {ℓ μ} : {S : Type ℓ} {T : Type μ} → Start S → (S → Start T) → Start T
running a >>= next = next a
exited e >>= next = exited e
panicked >>= next = panicked

abbrev pub params_of : Policy → BudgetParams
params_of p = record {
  window_seconds = p.rolling_tokens.window_seconds;
  limit_tokens = p.rolling_tokens.limit_tokens;
  burst_tokens = p.rolling_tokens.burst_tokens;
}

-- The clock is read when a window is made; `now` gives the reading for each key.
unfoldable pub register_policy : String → Policy → (String → ℕ) → Tracker → Start Tracker
register_policy id p now t = elim (register id (params_of p) (now id) t) [
  | none ↦ panicked
  | some t' ↦ running t'
]

unfoldable pub register_default : Option Policy → (String → ℕ) → Tracker → Start Tracker
unfolding register_policy
register_default none now t = running t
register_default (some p) now t = register_policy "_default" p now t

-- The engine's answer for a workload decides its budget; without one the process exits.
unfoldable pub register_found : Option Policy → String → (String → ℕ) → Tracker → Start Tracker
unfolding register_policy
register_found none id now t = exited (unresolvable_workload id)
register_found (some p) id now t = register_policy id p now t

unfoldable pub register_workloads : Engine → List Workload → (String → ℕ) → Tracker → Start Tracker
unfolding register_found
register_workloads engine [] now t = running t
register_workloads engine (w ∷ ws) now t = do
  t' ← register_found (lookup_policy engine (record no_identity { workload_id = w.id })) w.id now t
  register_workloads engine ws now t'

-- Whom to ask, by what, and the budgets.
pub record Wiring : Type 0 where
  pub resolver : Resolver
  pub engine : Engine
  pub accounting_key : String
  pub tracker : Tracker

abbrev wiring : Resolver → Engine → String → Tracker → Wiring
wiring resolver engine key t = record {
  resolver = resolver;
  engine = engine;
  accounting_key = key;
  tracker = t;
}

unfoldable pub wire_override : Process → Config → (String → ℕ) → Option Policy → Start Wiring
unfolding register_policy
wire_override p c now none = exited (unknown_policy (p.getenv "KOSHI_POLICY_OVERRIDE"))
wire_override p c now (some pol) =
    let key = "listener_policy/" <> p.getenv "KOSHI_POLICY_OVERRIDE" in
    do
      t ← register_policy key pol now new_tracker
      running (wiring (by_pod (new_pod_resolver p.getenv)) (override pol) key t)

unfoldable pub wire_listener : Process → Config → (String → ℕ) → Start Wiring
unfolding wire_override register_default find_policy
wire_listener p c now =
    if str_eq (p.getenv "KOSHI_POLICY_OVERRIDE") ""
    then (do
      t ← register_default c.default_policy now new_tracker
      running
          (wiring (by_pod (new_pod_resolver p.getenv)) (by_map (new_map_engine c)) "_default" t))
    else wire_override p c now (find_policy (p.getenv "KOSHI_POLICY_OVERRIDE") c.policies)

-- The resolver of the enforcement mode, by the first workload.
unfoldable pub resolver_of : Process → List Workload → Resolver
resolver_of p [] = by_header "x-genops-workload-id"
resolver_of p (w ∷ _) =
    if str_eq w.identity.mode "pod"
    then by_pod (new_pod_resolver p.getenv)
    else by_header (if str_eq w.identity.key "" then "x-genops-workload-id" else w.identity.key)

unfoldable pub wire_enforcement : Process → Config → (String → ℕ) → Start Wiring
unfolding register_workloads register_default resolver_of
wire_enforcement p c now = do
  t ← register_workloads (by_map (new_map_engine c)) c.workloads now new_tracker
  t' ← register_default c.default_policy now t
  running (wiring (resolver_of p c.workloads) (by_map (new_map_engine c)) "" t')

unfoldable pub wire : Process → Config → (String → ℕ) → Start Wiring
unfolding wire_listener wire_enforcement
wire p c now = if str_eq c.mode "listener" then wire_listener p c now else wire_enforcement p c now

-- version.Version and genops.SpecVersion
abbrev pub version : String
version = "v1.0.0"

abbrev pub spec_version : String
spec_version = "0.1.0"

abbrev pub handler_of : Config → Wiring → Handler
handler_of c w =
    new_handler w.resolver w.engine c.upstreams (sse_extraction_enabled c) version spec_version
      c.mode w.accounting_key

abbrev pub state_of : Wiring → State
state_of w = record { tracker = w.tracker; degraded = false; events = []; metrics = [] }

-- The start of the role `runtime`, to the point where requests are served.
unfoldable pub start : Process → (String → ℕ) → Start (Config × Handler × State)
unfolding load_config wire
start p now = elim (load_config p) [
  | err e ↦ exited e
  | ok c ↦ wire p c now >>= λ w. running (c, handler_of c w, state_of w)
]
