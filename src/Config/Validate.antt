-- ===== src/Config/Validate.antt =====
-- Validate, ValidateSidecarConfig and validatePolicy of internal/config/config.go.
-- An error carries what its message names; a map of upstreams is checked in the order of its list.
use koshi_runtime.Base.{
  Bool, true, false, not, ◌&&◌, ◌||◌, List, [], ◌∷◌, Option, none, some, String, str_eq,
  if◌then◌else◌,
}
use koshi_runtime.Base.Dict.{Dict}
use koshi_runtime.Base.Int.{ℤ, pos, leb_ℤ, ltb_ℤ}
use koshi_runtime.Base.Result.{Result, ok, err, ◌>>=◌, ◌>>◌, fail_if}
use koshi_runtime.Config.{Config, Workload, Policy}

pub data PolicyError : Type 0 where
  window_seconds_not_positive limit_tokens_not_positive burst_tokens_negative : ℤ → PolicyError
  max_tokens_negative : ℤ → PolicyError

pub data ConfigError : Type 0 where
  bad_mode : String → ConfigError
  no_upstreams google_upstream no_policies sidecar_workloads : ConfigError
  empty_url : String → ConfigError
  empty_policy_id empty_workload_id listener_without_default : ConfigError
  duplicate_policy duplicate_workload no_policy_refs empty_identity_key : String → ConfigError
  bad_policy : String → PolicyError → ConfigError
  bad_default_policy : PolicyError → ConfigError
  bad_identity_mode unknown_policy_ref : String → String → ConfigError
  identity_keys_differ : String → String → ConfigError

abbrev pub contains : List String → String → Bool
contains [] k = false
contains (x ∷ xs) k = str_eq x k || contains xs k

abbrev pub is_empty {ℓ} : {A : Type ℓ} → List A → Bool
is_empty [] = true
is_empty (_ ∷ _) = false

unfoldable pub validate_policy : Policy → Result PolicyError (Unit {0})
validate_policy p = do
  fail_if (leb_ℤ b.window_seconds (pos 0)) (window_seconds_not_positive b.window_seconds)
  fail_if (leb_ℤ b.limit_tokens (pos 0)) (limit_tokens_not_positive b.limit_tokens)
  fail_if (ltb_ℤ b.burst_tokens (pos 0)) (burst_tokens_negative b.burst_tokens)
  fail_if (ltb_ℤ p.guards.max_tokens_per_request (pos 0))
      (max_tokens_negative p.guards.max_tokens_per_request)
  where
    open p use {rolling_tokens as b}

abbrev pub wrap_error {ℓ} : {E F : Type ℓ} → (E → F) → Result E (Unit {0}) → Result F (Unit {0})
wrap_error f (ok u) = ok u
wrap_error f (err e) = err (f e)

unfoldable pub validate_upstreams : Dict String → Result ConfigError (Unit {0})
validate_upstreams [] = ok tt
validate_upstreams ((name, url) ∷ rest) = do
  fail_if (str_eq url "") (empty_url name)
  fail_if (str_eq name "google") google_upstream
  validate_upstreams rest

-- The loop over the policies; the result is the set policyIDs.
unfoldable pub validate_policies : List Policy → List String → Result ConfigError (List String)
validate_policies [] ids = ok ids
validate_policies (p ∷ ps) ids = do
  fail_if (str_eq p.id "") empty_policy_id
  fail_if (contains ids p.id) (duplicate_policy p.id)
  wrap_error (bad_policy p.id) (validate_policy p)
  validate_policies ps (p.id ∷ ids)

unfoldable pub validate_default : Option Policy → Result ConfigError (Unit {0})
validate_default none = ok tt
validate_default (some p) = wrap_error bad_default_policy (validate_policy p)

unfoldable pub validate_refs : List String → String → List String → Result ConfigError (Unit {0})
validate_refs ids w [] = ok tt
validate_refs ids w (r ∷ rs) = do
  fail_if (not (contains ids r)) (unknown_policy_ref w r)
  validate_refs ids w rs

unfoldable pub validate_identity : Workload → Result ConfigError (Unit {0})
validate_identity w = do
  fail_if (not (str_eq mode "header") && not (str_eq mode "pod")) (bad_identity_mode w.id mode)
  fail_if (str_eq mode "header" && str_eq key "") (empty_identity_key w.id)
  where
    open w.identity use {mode, key}

-- The checks of one workload, in the order of the loop's body.
unfoldable pub validate_workload :
    List String → List String → Workload → Result ConfigError (Unit {0})
unfolding validate_identity validate_refs
validate_workload ids seen w = do
  fail_if (str_eq w.id "") empty_workload_id
  fail_if (contains seen w.id) (duplicate_workload w.id)
  validate_identity w
  validate_refs ids w.id w.policy_refs
  fail_if (is_empty w.policy_refs) (no_policy_refs w.id)

-- The loop over the workloads; the result is headerWorkloads.
unfoldable pub validate_workloads :
    List String → List String → List Workload → Result ConfigError (List Workload)
validate_workloads ids seen [] = ok []
validate_workloads ids seen (w ∷ ws) = do
  validate_workload ids seen w
  headers ← validate_workloads ids (w.id ∷ seen) ws
  ok (if str_eq w.identity.mode "header" then w ∷ headers else headers)

-- Every later workload against the first one.
unfoldable pub validate_keys : String → List Workload → Result ConfigError (Unit {0})
validate_keys key [] = ok tt
validate_keys key (w ∷ ws) = do
  fail_if (not (str_eq w.identity.key key)) (identity_keys_differ key w.identity.key)
  validate_keys key ws

unfoldable pub validate_header_keys : List Workload → Result ConfigError (Unit {0})
unfolding validate_keys
validate_header_keys [] = ok tt
validate_header_keys (w ∷ ws) = validate_keys w.identity.key ws

abbrev pub is_mode : String → Bool
is_mode m = str_eq m "listener" || str_eq m "enforcement"

-- Validate first writes the default mode into the configuration.
abbrev pub normalize : Config → Config
normalize c = if str_eq c.mode "" then record c { mode = "enforcement" } else c

abbrev pub default_addr : Config → Config
default_addr c =
    if str_eq c.mode "listener" && str_eq c.listen_addr ""
    then record c { listen_addr = ":15080" }
    else c

-- The checks after the default policy's.
unfoldable pub validate_rest : Config → List String → Result ConfigError Config
unfolding validate_header_keys
validate_rest c ids =
    if str_eq c.mode "listener" && is_empty c.workloads
    then (do
      fail_if (elim c.default_policy [ none ↦ true | some _ ↦ false ]) listener_without_default
      ok (default_addr c))
    else (do
      headers ← validate_workloads ids [] c.workloads
      validate_header_keys headers
      ok (default_addr c))

-- On success the configuration as Validate leaves it. On an error the caller exits.
unfoldable pub validate_normal : Config → Result ConfigError Config
unfolding validate_default validate_rest
validate_normal c = do
  fail_if (not (is_mode c.mode)) (bad_mode c.mode)
  fail_if (is_empty c.upstreams) no_upstreams
  validate_upstreams c.upstreams
  ids ← validate_policies c.policies []
  validate_default c.default_policy
  validate_rest c ids

unfoldable pub validate : Config → Result ConfigError Config
unfolding validate_normal
validate c = validate_normal (normalize c)

unfoldable pub validate_sidecar_config : Config → Result ConfigError (Unit {0})
validate_sidecar_config c = do
  fail_if (not (str_eq c.mode "") && not (is_mode c.mode)) (bad_mode c.mode)
  fail_if (is_empty c.upstreams) no_upstreams
  validate_upstreams c.upstreams
  fail_if (is_empty c.policies) no_policies
  _ ← validate_policies c.policies []
  fail_if (not (is_empty c.workloads)) sidecar_workloads
