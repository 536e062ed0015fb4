-- ===== src/Config/Tests.antt =====
-- The validation of internal/config/config.go on one workload.
use koshi_runtime.Base.{◌≡◌, refl, [], ◌∷◌, some}
use koshi_runtime.Base.Result.{ok}
use koshi_runtime.Config.{Config, Workload, Policy, default_enforcement_sidecar_config}
use koshi_runtime.Config.Sound.{IsSound, validate-lookup_policy}
use koshi_runtime.Config.Validate.{
  validate, validate_normal, validate_upstreams, validate_policies, validate_policy,
  validate_default, validate_rest, validate_workloads, validate_workload, validate_identity,
  validate_refs, validate_header_keys, validate_keys,
}
use koshi_runtime.Identity.{WorkloadIdentity}
use koshi_runtime.Policy.{by_map, new_map_engine, lookup_policy}

abbrev agent : Workload
agent = record {
  id = "agent";
  type = "batch";
  owner_team = "core";
  environment = "prod";
  identity = record { mode = "header"; key = "x-genops-workload-id" };
  model_targets = [];
  policy_refs = "sidecar-strict" ∷ [];
}

abbrev one_workload : Config
one_workload = record default_enforcement_sidecar_config { workloads = agent ∷ [] }

abbrev ident : WorkloadIdentity
ident = record { workload_id = "agent"; namespace = ""; workload_kind = ""; workload_name = "" }

accepted : validate one_workload ≡ ok one_workload
unfolding validate validate_normal validate_upstreams validate_policies validate_policy
    validate_default validate_rest validate_workloads validate_workload validate_identity
    validate_refs validate_header_keys validate_keys
accepted = refl

validate-lookup_policy_example :
    (p : Policy) × (lookup_policy (by_map (new_map_engine one_workload)) ident ≡ some p) × IsSound p
validate-lookup_policy_example =
    validate-lookup_policy one_workload one_workload 0 agent ident accepted refl refl
