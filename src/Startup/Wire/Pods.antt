-- ===== src/Startup/Wire/Pods.antt =====
-- The sidecar that internal/inject puts into a pod, as cmd/koshi/main.go starts in it.
use koshi_runtime.Base.{
  ℕ, ◌≡◌, refl, sym, ◌∙◌, ap, false, List, [], ◌∷◌, Option, none, some, String, str_eq,
  if◌then◌else◌,
}
use mathlib.Core.Option.{some-injective}
use mathlib.Core.Path.{subst}
use koshi_runtime.Base.Result.{ok}
use koshi_runtime.Budget.Tracker.Frame.{AllValid}
use koshi_runtime.Config.{
  Config, sidecar_baseline, default_sidecar_policy_id, default_enforcement_sidecar_config,
}
use koshi_runtime.Identity.{WorkloadIdentity, Request, resolve, trim_space, workload_path}
use koshi_runtime.Inject.Patches.{
  WebhookConfig, annotation, workload_of, config_map_of, sidecar_env,
}
use koshi_runtime.Inject.Pod.{EnvVar, Pod}
use koshi_runtime.Policy.{lookup_policy}
use koshi_runtime.Startup.Load.{Process, find_policy, with_workload, load_enforcement, load_config}
use koshi_runtime.Startup.Wire.{running, Wiring, wire}
use koshi_runtime.Startup.Wire.Registers.{IsRegistered}
use koshi_runtime.Startup.Wire.Sidecar.{load_enforcement-wire}

-- os.Getenv in a container that has these variables.
abbrev pub value_of : List EnvVar → String → String
value_of [] key = ""
value_of (e ∷ es) key = if str_eq e.name key then e.value else value_of es key

-- A process in the sidecar.
abbrev pub sidecar_process : WebhookConfig → Pod → String → (String → Option Config) → Process
sidecar_process cfg pod namespace parse = record {
  getenv = value_of (sidecar_env cfg pod namespace);
  parse = parse;
}

-- A part of an identity as the resolver takes it.
abbrev pub IsName : String → Type 0
IsName s = (str_eq s "" ≡ false) × (trim_space s ≡ s)

-- The environment of a sidecar that enforces the default policy.
record IsEnforcing (p : Process) (namespace kind name : String) : Type 0 where
  in_namespace : p.getenv "KOSHI_POD_NAMESPACE" ≡ namespace
  of_kind : p.getenv "KOSHI_WORKLOAD_KIND" ≡ kind
  named : p.getenv "KOSHI_WORKLOAD_NAME" ≡ name
  mode : p.getenv "KOSHI_MODE" ≡ "enforcement"
  no_override : p.getenv "KOSHI_POLICY_OVERRIDE" ≡ ""
  no_path : p.getenv "KOSHI_CONFIG_PATH" ≡ ""

sidecar_env-IsEnforcing :
    (cfg : WebhookConfig) (pod : Pod) (namespace kind name : String)
    (parse : String → Option Config)
    → workload_of pod ≡ (kind, name)
    → annotation pod "runtime.getkoshi.ai/mode" ≡ some "enforcement"
    → annotation pod "runtime.getkoshi.ai/policy" ≡ none
    → config_map_of pod ≡ none
    → IsEnforcing (sidecar_process cfg pod namespace parse) namespace kind name
unfolding sidecar_env
sidecar_env-IsEnforcing cfg pod namespace kind name parse w mode policy config = record {
  in_namespace = refl;
  of_kind = ap (λ x. x.0) w;
  named = ap (λ x. x.1) w;
  mode = rw (sidecar_env, mode) refl;
  no_override = rw (sidecar_env, mode, policy, config) refl;
  no_path = rw (sidecar_env, mode, policy, config) refl;
}

abbrev enforcing_config : String → String → String → Config
enforcing_config namespace kind name =
    with_workload (workload_path namespace kind name) default_sidecar_policy_id
      default_enforcement_sidecar_config

IsEnforcing-load_config :
    (p : Process) (namespace kind name : String)
    → IsEnforcing p namespace kind name
    → IsName namespace
    → IsName kind
    → IsName name
    → (load_enforcement p ≡ ok (enforcing_config namespace kind name))
      × (load_config p ≡ load_enforcement p)
unfolding load_enforcement load_config
IsEnforcing-load_config p namespace kind name e n k m = (
  rw (load_enforcement, e.in_namespace, e.of_kind, e.named, e.no_override, n.0, k.0, m.0) refl,
  rw (load_config, e.no_path, e.mode) refl,
)

-- In the environment that the webhook gives to the sidecar of a pod that asks for enforcement,
-- without a policy and without a config map, the runtime loads its built-in configuration and
-- runs on valid windows: each request is attributed to namespace, kind and name of the pod's
-- workload, the engine has the baseline policy for it, and its budget is registered. The
-- namespace, the kind and the name must be non-empty and free of outer white space.
pub sidecar_env-wire :
    (cfg : WebhookConfig) (pod : Pod) (namespace kind name : String)
    (parse : String → Option Config) (now : String → ℕ) (r : Request)
    → workload_of pod ≡ (kind, name)
    → IsName namespace
    → IsName kind
    → IsName name
    → annotation pod "runtime.getkoshi.ai/mode" ≡ some "enforcement"
    → annotation pod "runtime.getkoshi.ai/policy" ≡ none
    → config_map_of pod ≡ none
    → (c : Config) × (w : Wiring) × (ident : WorkloadIdentity) × (load_config
          (sidecar_process cfg pod namespace parse)
        ≡ ok c)
      × (wire (sidecar_process cfg pod namespace parse) c now ≡ running w)
      × AllValid w.tracker
      × (resolve w.resolver r ≡ some ident)
      × (ident.workload_id ≡ workload_path namespace kind name)
      × (lookup_policy w.engine ident ≡ some sidecar_baseline)
      × IsRegistered (workload_path namespace kind name) w.tracker
unfolding find_policy
sidecar_env-wire cfg pod namespace kind name parse now r is n k m mode policy config =
    let p = sidecar_process cfg pod namespace parse in
    let e = sidecar_env-IsEnforcing cfg pod namespace kind name parse is mode policy config in
    let (loaded, same) = IsEnforcing-load_config p namespace kind name e n k m in
    let c = enforcing_config namespace kind name in
    let (w, ident, q, run, all, resolved, id, found, looked, own) =
      load_enforcement-wire p c now r loaded
        (trimmed p "KOSHI_POD_NAMESPACE" namespace e.in_namespace n)
        (trimmed p "KOSHI_WORKLOAD_KIND" kind e.of_kind k)
        (trimmed p "KOSHI_WORKLOAD_NAME" name e.named m) in
    let baseline : sidecar_baseline ≡ q =
      some-injective sidecar_baseline q (rw e.no_override at found) in
    let whole : ident.workload_id ≡ workload_path namespace kind name =
      id ∙ rw (e.in_namespace, e.of_kind, e.named) refl in
    (
      c,
      w,
      ident,
      same ∙ loaded,
      run,
      all,
      resolved,
      whole,
      looked ∙ ap some (sym baseline),
      subst (λ x. IsRegistered x w.tracker) whole own,
    )
  where
    trimmed :
        (p : Process) (key value : String)
        → p.getenv key ≡ value
        → IsName value
        → trim_space (p.getenv key) ≡ p.getenv key
    trimmed p key value e v = ap trim_space e ∙ v.1 ∙ sym e
