-- ===== src/Config.antt =====
-- internal/config/config.go: the configuration and its validation. YAML and files are not modelled:
-- a configuration is the decoded value.
pub mod Validate
mod Tests
pub mod Sound
pub mod Defaults
use koshi_runtime.Base.{ℕ, Bool, true, false, List, [], ◌∷◌, Option, none, some, String}
use koshi_runtime.Base.Dict.{Dict}
use koshi_runtime.Base.Int.{ℤ, pos}

pub record Identity : Type 0 where
  pub mode : String
  pub key : String

pub record ModelTarget : Type 0 where
  pub provider : String
  pub model : String

pub record Workload : Type 0 where
  pub id : String
  pub type : String
  pub owner_team : String
  pub environment : String
  pub identity : Identity
  pub model_targets : List ModelTarget
  pub policy_refs : List String

pub record RollingTokenBudget : Type 0 where
  pub window_seconds : ℤ
  pub limit_tokens : ℤ
  pub burst_tokens : ℤ

pub record Guards : Type 0 where
  pub max_tokens_per_request : ℤ

-- The actions of the two tiers.
pub record DecisionTiers : Type 0 where
  pub tier1_auto : String
  pub tier3_platform : String

pub record Policy : Type 0 where
  pub id : String
  pub rolling_tokens : RollingTokenBudget
  pub guards : Guards
  pub decision_tiers : DecisionTiers

-- `mode` is Mode.Type.
pub record Config : Type 0 where
  pub mode : String
  pub upstreams : Dict String
  pub workloads : List Workload
  pub policies : List Policy
  pub default_policy : Option Policy
  pub strict_mode : Bool
  pub sse_extraction : Option Bool
  pub response_header_timeout : ℤ
  pub listen_addr : String

abbrev rolling : ℕ → ℕ → ℕ → RollingTokenBudget
rolling seconds limit burst = record {
  window_seconds = pos seconds;
  limit_tokens = pos limit;
  burst_tokens = pos burst;
}

abbrev pub sidecar_baseline : Policy
sidecar_baseline = record {
  id = "sidecar-baseline";
  rolling_tokens = rolling 3600 100000 10000;
  guards = record { max_tokens_per_request = pos 4096 };
  decision_tiers = record { tier1_auto = "throttle"; tier3_platform = "kill_workload" };
}

abbrev sidecar_strict : Policy
sidecar_strict = record {
  id = "sidecar-strict";
  rolling_tokens = rolling 3600 25000 2500;
  guards = record { max_tokens_per_request = pos 2048 };
  decision_tiers = record { tier1_auto = "throttle"; tier3_platform = "kill_workload" };
}

abbrev sidecar_high_throughput : Policy
sidecar_high_throughput = record {
  id = "sidecar-high-throughput";
  rolling_tokens = rolling 3600 500000 50000;
  guards = record { max_tokens_per_request = pos 32768 };
  decision_tiers = record { tier1_auto = "throttle"; tier3_platform = "" };
}

abbrev pub sidecar_policy_catalog : List Policy
sidecar_policy_catalog = sidecar_baseline ∷ sidecar_strict ∷ sidecar_high_throughput ∷ []

abbrev pub default_sidecar_policy_id : String
default_sidecar_policy_id = "sidecar-baseline"

abbrev built_in_upstreams : Dict String
built_in_upstreams =
    ("openai", "https://api.openai.com") ∷ ("anthropic", "https://api.anthropic.com") ∷ []

abbrev listener_default : Policy
listener_default = record {
  id = "_listener_default";
  rolling_tokens = rolling 3600 1000000 0;
  guards = record { max_tokens_per_request = pos 32768 };
  decision_tiers = record { tier1_auto = "throttle"; tier3_platform = "" };
}

abbrev pub default_listener_config : Config
default_listener_config = record {
  mode = "listener";
  upstreams = built_in_upstreams;
  workloads = [];
  policies = sidecar_policy_catalog;
  default_policy = some listener_default;
  strict_mode = false;
  sse_extraction = none;
  response_header_timeout = pos 0;
  listen_addr = ":15080";
}

abbrev pub default_enforcement_sidecar_config : Config
default_enforcement_sidecar_config = record {
  mode = "enforcement";
  upstreams = built_in_upstreams;
  workloads = [];
  policies = sidecar_policy_catalog;
  default_policy = none;
  strict_mode = false;
  sse_extraction = none;
  response_header_timeout = pos 0;
  listen_addr = ":15080";
}

abbrev pub sse_extraction_enabled : Config → Bool
sse_extraction_enabled c = elim c.sse_extraction [ none ↦ true | some b ↦ b ]
