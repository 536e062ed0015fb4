-- ===== src/Startup/Load.antt =====
-- The roles of cmd/koshi/main.go, and how it comes by its configuration. Reading and decoding a
-- file is a parameter; the environment is the function of os.Getenv.
use koshi_runtime.Base.{
  Bool, true, false, not, ◌&&◌, ◌||◌, List, [], ◌∷◌, ◌++◌, Option, none, some, String, str_eq,
  if◌then◌else◌,
}
use koshi_runtime.Base.Result.{Result, ok, err, ◌>>=◌, ◌>>◌, fail_if}
use koshi_runtime.Config.{
  Config, Workload, Policy, default_listener_config, default_enforcement_sidecar_config,
  default_sidecar_policy_id,
}
use koshi_runtime.Config.Validate.{ConfigError, validate, validate_sidecar_config}
use koshi_runtime.Identity.{workload_path}

pub data Role : Type 0 where
  injector certgen_secret certgen_cabundle runtime : Role

unfoldable pub role_of : String → Role
role_of name =
    if str_eq name "injector"
    then Role.injector
    else if str_eq name "certgen-secret"
    then Role.certgen_secret
    else if str_eq name "certgen-cabundle"
    then Role.certgen_cabundle
    else Role.runtime

-- Why the process exits.
pub data Exit : Type 0 where
  unreadable_config : String → Exit
  invalid_config : ConfigError → Exit
  missing_identity policy_required : Exit
  unknown_policy unsupported_mode unresolvable_workload : String → Exit

pub record Process : Type 0 where
  pub getenv : String → String
  pub parse : String → Option Config

-- The first policy of an ID.
unfoldable pub find_policy : String → List Policy → Option Policy
find_policy id [] = none
find_policy id (p ∷ ps) = if str_eq p.id id then some p else find_policy id ps

abbrev pub is_none {ℓ} : {A : Type ℓ} → Option A → Bool
is_none none = true
is_none (some _) = false

-- config.Parse, as main uses it.
abbrev pub parse_config : Process → String → Result Exit Config
parse_config p path = elim (p.parse path) [ none ↦ err (unreadable_config path) | some c ↦ ok c ]

abbrev pub checked {ℓ} : {A : Type ℓ} → Result ConfigError A → Result Exit A
checked (ok a) = ok a
checked (err e) = err (invalid_config e)

-- The workload that stands for the pod.
abbrev pub pod_workload : String → String → Workload
pod_workload id policy = record {
  id = id;
  type = "sidecar";
  owner_team = "";
  environment = "";
  identity = record { mode = "pod"; key = "" };
  model_targets = [];
  policy_refs = policy ∷ [];
}

abbrev pub with_workload : String → String → Config → Config
with_workload id policy c = record c { workloads = c.workloads ++ (pod_workload id policy ∷ []) }

abbrev pub workload_id_of : Process → String
workload_id_of p =
    workload_path (p.getenv "KOSHI_POD_NAMESPACE") (p.getenv "KOSHI_WORKLOAD_KIND")
      (p.getenv "KOSHI_WORKLOAD_NAME")

-- A configuration from a config map, in an injected sidecar: the mode and the policy come from the
-- environment.
abbrev pub sidecar_config : Process → Config → Config
sidecar_config p c =
    let mode = if str_eq (p.getenv "KOSHI_MODE") "enforcement" then "enforcement" else "listener" in
    let addr = if str_eq c.listen_addr "" then ":15080" else c.listen_addr in
    with_workload (workload_id_of p) (p.getenv "KOSHI_POLICY_OVERRIDE")
      (record c { mode = mode; listen_addr = addr })

unfoldable pub load_sidecar : Process → String → Result Exit Config
unfolding find_policy
load_sidecar p path = do
  c ← parse_config p path
  checked (validate_sidecar_config c)
  fail_if (str_eq (p.getenv "KOSHI_WORKLOAD_KIND") "" || str_eq (p.getenv "KOSHI_WORKLOAD_NAME") "")
      missing_identity
  fail_if (str_eq (p.getenv "KOSHI_POLICY_OVERRIDE") "") policy_required
  fail_if (is_none (find_policy (p.getenv "KOSHI_POLICY_OVERRIDE") c.policies))
      (unknown_policy (p.getenv "KOSHI_POLICY_OVERRIDE"))
  ok (sidecar_config p c)

-- config.Load
unfoldable pub load_file : Process → String → Result Exit Config
load_file p path = do c ← parse_config p path; checked (validate c)

-- The policy of a sidecar that enforces without a file.
abbrev pub policy_choice : Process → String
policy_choice p =
    if str_eq (p.getenv "KOSHI_POLICY_OVERRIDE") ""
    then default_sidecar_policy_id
    else p.getenv "KOSHI_POLICY_OVERRIDE"

unfoldable pub load_enforcement : Process → Result Exit Config
unfolding find_policy
load_enforcement p = do
  fail_if
      (str_eq (p.getenv "KOSHI_POD_NAMESPACE") ""
        || str_eq (p.getenv "KOSHI_WORKLOAD_KIND") ""
        || str_eq (p.getenv "KOSHI_WORKLOAD_NAME") "")
      missing_identity
  fail_if
      (not (str_eq (p.getenv "KOSHI_POLICY_OVERRIDE") "")
        && is_none (
            find_policy (p.getenv "KOSHI_POLICY_OVERRIDE")
              default_enforcement_sidecar_config.policies))
      (unknown_policy (p.getenv "KOSHI_POLICY_OVERRIDE"))
  ok (with_workload (workload_id_of p) (policy_choice p) default_enforcement_sidecar_config)

unfoldable pub load_config : Process → Result Exit Config
unfolding load_sidecar load_file load_enforcement
load_config p =
    let path = p.getenv "KOSHI_CONFIG_PATH" in
    let mode = p.getenv "KOSHI_MODE" in
    if not (str_eq path "") && not (str_eq (p.getenv "KOSHI_POD_NAMESPACE") "")
    then load_sidecar p path
    else if not (str_eq path "")
    then load_file p path
    else if str_eq mode "enforcement"
    then load_enforcement p
    else if str_eq mode ""
    then ok default_listener_config
    else err (unsupported_mode mode)
