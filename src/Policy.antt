-- ===== src/Policy.antt =====
-- internal/policy/engine.go: which policy holds for a workload. The warning on several references
-- is a log line and is not modelled.
use koshi_runtime.Base.{Bool, List, [], ◌∷◌, Option, none, some, String, if◌then◌else◌}
use koshi_runtime.Base.Dict.{Dict, lookup, insert}
use koshi_runtime.Config.{Config, Workload, Policy}
use koshi_runtime.Identity.{WorkloadIdentity}

pub record MapEngine : Type 0 where
  pub policies : Dict Policy
  pub default_policy : Option Policy
  pub strict_mode : Bool

-- The first loop: a later policy of the same ID replaces an earlier one.
unfoldable pub policy_by_id : List Policy → Dict Policy → Dict Policy
policy_by_id [] m = m
policy_by_id (p ∷ ps) m = policy_by_id ps (insert p.id p m)

unfoldable pub attach : String → Option Policy → Dict Policy → Dict Policy
attach id none m = m
attach id (some p) m = insert id p m

unfoldable pub attach_first : String → List String → Dict Policy → Dict Policy → Dict Policy
unfolding attach
attach_first id [] by_id m = m
attach_first id (ref ∷ _) by_id m = attach id (lookup ref by_id) m

-- The second loop: only the first reference counts.
unfoldable pub resolve_workloads : List Workload → Dict Policy → Dict Policy → Dict Policy
unfolding attach_first
resolve_workloads [] by_id m = m
resolve_workloads (w ∷ ws) by_id m =
    resolve_workloads ws by_id (attach_first w.id w.policy_refs by_id m)

unfoldable pub new_map_engine : Config → MapEngine
new_map_engine c = record {
  policies = resolve_workloads c.workloads (policy_by_id c.policies []) [];
  default_policy = c.default_policy;
  strict_mode = c.strict_mode;
}

abbrev or_default : MapEngine → Option Policy → Option Policy
or_default e (some p) = some p
or_default e none = if e.strict_mode then none else e.default_policy

-- MapEngine.Lookup; `none` is the result `nil, false`.
unfoldable pub lookup_map : MapEngine → WorkloadIdentity → Option Policy
lookup_map e id = or_default e (lookup id.workload_id e.policies)

-- The implementations of the interface Engine; OverrideEngine ignores the identity.
pub data Engine : Type 0 where
  by_map : MapEngine → Engine
  override : Policy → Engine

unfoldable pub lookup_policy : Engine → WorkloadIdentity → Option Policy
unfolding lookup_map
lookup_policy (by_map e) id = lookup_map e id
lookup_policy (override p) id = some p
