-- ===== src/Startup/Tests.antt =====
-- Starts of cmd/koshi/main.go in a few environments, and a report.
use koshi_runtime.Base.{ℕ, ◌≡◌, refl, sym, ◌∙◌, true, [], ◌∷◌, some, none, String, ◌⊎◌, arith}
use koshi_runtime.Base.Dict.{lookup, insert}
use koshi_runtime.Base.Int.{pos, negsuc}
use koshi_runtime.Base.Result.{ok}
use koshi_runtime.Budget.Tracker.{BudgetStatus, WorkloadState, status}
use koshi_runtime.Budget.Tracker.Frame.{AllValid, insert-AllValid}
use koshi_runtime.Budget.Window.{Window}
use koshi_runtime.Budget.Window.Valid.{IsValid}
use koshi_runtime.Config.{
  Config, Workload, Policy, default_enforcement_sidecar_config, sidecar_baseline,
}
use koshi_runtime.Config.Validate.{
  validate, validate_normal, validate_upstreams, validate_policies, validate_policy,
  validate_default, validate_rest, validate_workloads, validate_workload, validate_identity,
  validate_refs, validate_header_keys, validate_keys, validate_sidecar_config,
}
use koshi_runtime.Identity.{
  WorkloadIdentity, Request, by_header, resolve, trim_space, trim_left, trim_right, cons_trimmed,
}
use koshi_runtime.Inject.Owner.{
  normalize_owner, owner_identity, replica_set_owner, deployment_of, strip_suffix,
}
use koshi_runtime.Inject.Patches.{WebhookConfig, annotation, workload_of, config_map_of}
use koshi_runtime.Inject.Pod.{EnvVar, Pod}
use koshi_runtime.Json.{null}
use koshi_runtime.Policy.{override, lookup_policy}
use koshi_runtime.Proxy.Effects.{State}
use koshi_runtime.Startup.Load.{
  Process, find_policy, with_workload, load_file, load_sidecar, load_enforcement, load_config,
  sidecar_config,
}
use koshi_runtime.Startup.Serve.{WorkloadStatusDto, StatusResponse, serve_status}
use koshi_runtime.Startup.Serve.Status.{IsReported, serve_status-status}
use koshi_runtime.Startup.Wire.{running, panicked, Wiring, wire, start, handler_of, state_of}
use koshi_runtime.Startup.Wire.Pods.{value_of, sidecar_process, sidecar_env-wire}
use koshi_runtime.Startup.Wire.Registers.{IsRegistered}
use koshi_runtime.Startup.Wire.Runs.{new_tracker-AllValid}
use koshi_runtime.Startup.Wire.Sidecar.{load_sidecar-wire}
use koshi_runtime.Startup.Wire.Fits.{ConfigFits, catalog_fits}
use koshi_runtime.Startup.Wire.Loads.{ok-eq}
use koshi_runtime.Startup.Wire.Starts.{Outcome, start-Outcome}
use mathlib.Core.Path.{subst}

abbrev env_var : String → String → EnvVar
env_var name value = record { name = name; value = value }

abbrev pub now : String → ℕ
now _ = 5_600_000_000

abbrev pub agent : Workload
agent = record {
  id = "agent";
  type = "batch";
  owner_team = "core";
  environment = "prod";
  identity = record { mode = "header"; key = "x-genops-workload-id" };
  model_targets = [];
  policy_refs = "sidecar-strict" ∷ [];
}

abbrev pub one_workload : Config
one_workload = record default_enforcement_sidecar_config { workloads = agent ∷ [] }

-- A runtime with a configuration file.
abbrev pub with_file : Process
with_file = record {
  getenv = value_of (env_var "KOSHI_CONFIG_PATH" "/etc/koshi/config.yaml" ∷ []);
  parse = λ _. some one_workload;
}

pub file_loaded : load_config with_file ≡ ok one_workload
unfolding load_config load_file validate validate_normal validate_upstreams validate_policies
    validate_policy validate_default validate_rest validate_workloads validate_workload
    validate_identity validate_refs validate_header_keys validate_keys
file_loaded = refl

pub one_workload_fits : ConfigFits one_workload
one_workload_fits = (catalog_fits, tt)

start-Outcome_example : Outcome with_file (start with_file now)
start-Outcome_example = start-Outcome with_file now refl (λ c l. fits_file c l)
  where
    fits_file : (c : Config) → load_config with_file ≡ ok c → ConfigFits c
    fits_file c l = subst ConfigFits (ok-eq one_workload c (sym file_loaded ∙ l)) one_workload_fits

-- An injected sidecar that enforces, without a file.
abbrev enforcing : Process
enforcing = record {
  getenv = value_of (
      env_var "KOSHI_POD_NAMESPACE" "prod"
      ∷ env_var "KOSHI_WORKLOAD_KIND" "Deployment"
      ∷ env_var "KOSHI_WORKLOAD_NAME" "shop"
      ∷ env_var "KOSHI_MODE" "enforcement"
      ∷ env_var "KOSHI_POLICY_OVERRIDE" "sidecar-strict"
      ∷ []);
  parse = λ _. none;
}

abbrev enforcing_config : Config
enforcing_config =
    with_workload "prod/Deployment/shop" "sidecar-strict" default_enforcement_sidecar_config

enforcing_loaded : load_enforcement enforcing ≡ ok enforcing_config
unfolding load_enforcement find_policy
enforcing_loaded = refl

trimmed :
    (trim_space "prod" ≡ "prod")
    × (trim_space "Deployment" ≡ "Deployment")
    × (trim_space "shop" ≡ "shop")
unfolding trim_space trim_left trim_right cons_trimmed
trimmed = (refl, refl, refl)

abbrev request : Request
request = record { header = λ _. "" }

-- A sidecar with a file, whose default policy has a negative window.
abbrev negative : Policy
negative = record sidecar_baseline {
  rolling_tokens = record { window_seconds = negsuc 0; limit_tokens = pos 1; burst_tokens = pos 0 };
}

abbrev mounted : Process
mounted = record {
  getenv = value_of (
      env_var "KOSHI_CONFIG_PATH" "/etc/koshi-sidecar/config.yaml"
      ∷ env_var "KOSHI_POD_NAMESPACE" "prod"
      ∷ env_var "KOSHI_WORKLOAD_KIND" "Deployment"
      ∷ env_var "KOSHI_WORKLOAD_NAME" "shop"
      ∷ env_var "KOSHI_MODE" "enforcement"
      ∷ env_var "KOSHI_POLICY_OVERRIDE" "sidecar-strict"
      ∷ []);
  parse = λ _. some (record default_enforcement_sidecar_config { default_policy = some negative });
}

abbrev mounted_config : Config
mounted_config =
    sidecar_config mounted
      (record default_enforcement_sidecar_config { default_policy = some negative })

mounted_loaded : load_sidecar mounted "/etc/koshi-sidecar/config.yaml" ≡ ok mounted_config
unfolding load_sidecar validate_sidecar_config validate_upstreams validate_policies validate_policy
    find_policy
mounted_loaded = refl

load_sidecar-wire_example : wire mounted mounted_config now ≡ panicked
load_sidecar-wire_example =
    load_sidecar-wire mounted "/etc/koshi-sidecar/config.yaml" mounted_config negative 0 now
      mounted_loaded refl refl refl

abbrev webhook : WebhookConfig
webhook = record {
  sidecar_image = "koshi:latest";
  sidecar_pull_policy = "IfNotPresent";
  sidecar_port = 15080;
  sidecar_resources = null;
  config_path = "/etc/koshi";
  scrape_annotations = [];
  openai_first = λ _. true;
}

-- A pod of a deployment that asks for enforcement.
abbrev pod : Pod
pod = record {
  name = "";
  generate_name = "shop-5f7-";
  owners = record { kind = "ReplicaSet"; name = "shop-5f7" } ∷ [];
  labels = ("pod-template-hash", "5f7") ∷ [];
  annotations = some (("runtime.getkoshi.ai/mode", "enforcement") ∷ []);
  volumes = none;
  containers = [];
}

deployed : workload_of pod ≡ ("Deployment", "shop")
unfolding workload_of normalize_owner owner_identity replica_set_owner deployment_of strip_suffix
    lookup
deployed = refl

annotated :
    (annotation pod "runtime.getkoshi.ai/mode" ≡ some "enforcement")
    × (annotation pod "runtime.getkoshi.ai/policy" ≡ none)
    × (config_map_of pod ≡ none)
unfolding config_map_of lookup
annotated = (refl, refl, refl)

sidecar_env-wire_example :
    (c : Config) × (w : Wiring) × (ident : WorkloadIdentity) × (load_config
        (sidecar_process webhook pod "prod" (λ _. none))
      ≡ ok c)
    × (wire (sidecar_process webhook pod "prod" (λ _. none)) c now ≡ running w)
    × AllValid w.tracker
    × (resolve w.resolver request ≡ some ident)
    × (ident.workload_id ≡ "prod/Deployment/shop")
    × (lookup_policy w.engine ident ≡ some sidecar_baseline)
    × IsRegistered "prod/Deployment/shop" w.tracker
sidecar_env-wire_example =
    sidecar_env-wire webhook pod "prod" "Deployment" "shop" (λ _. none) now request deployed
      (refl, trimmed.0) (refl, trimmed.1) (refl, trimmed.2) annotated.0 annotated.1 annotated.2

-- 30 tokens in the current second, 10 in the one before.
abbrev charged : Window
charged = record {
  buckets = pos 10 ∷ pos 30 ∷ pos 0 ∷ [];
  num_buckets = 3;
  head_idx = 1;
  head_time = 5_000_000_000;
  total_tokens = pos 40;
  burst_max = pos 20;
  burst_remaining = pos 20;
}

charged-IsValid : IsValid charged
charged-IsValid = record { positive = omega arith; sized = refl; head_in = omega arith }

abbrev booked : WorkloadState
booked = record { window = charged; window_seconds = pos 3; limit_tokens = pos 100 }

abbrev wiring : Wiring
wiring = record {
  resolver = by_header "x-genops-workload-id";
  engine = override sidecar_baseline;
  accounting_key = "";
  tracker = insert "agent" booked [];
}

serve_status-status_example :
    (s' : State) × (resp : StatusResponse) × (serve_status
        (handler_of one_workload wiring)
        "GET"
        now
        0
        (state_of wiring)
      ≡ (s', some resp))
    × AllValid s'.tracker
    × (((lookup "agent" resp.workloads ≡ none)
          × ((status "agent" (now "agent") wiring.tracker).1 ≡ none))
        ⊎ ((ws : WorkloadState) × (d : WorkloadStatusDto) × (st : BudgetStatus) × (lookup "agent"
                wiring.tracker
              ≡ some ws)
            × (lookup "agent" resp.workloads ≡ some d)
            × ((status "agent" (now "agent") wiring.tracker).1 ≡ some st)
            × IsReported ws d st))
serve_status-status_example =
    serve_status-status (handler_of one_workload wiring) now 0 (state_of wiring) "agent"
      (insert-AllValid "agent" booked [] new_tracker-AllValid charged-IsValid)
