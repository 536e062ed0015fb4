-- ===== src/Startup/Wire/Loads.antt =====
-- The configuration that cmd/koshi/main.go loads, as its wiring relies on it.
use koshi_runtime.Base.{
  ℕ, zero, suc, ◌≡◌, refl, sym, ◌∙◌, ap, false, not, ◌&&◌, ◌||◌, List, [], ◌∷◌, ◌++◌, some, String,
  str_eq, eq_iff, Bool-cases, Option-cases, inl, inr, get_elem?, if◌then◌else◌,
}
use mathlib.Core.Option.{none-ne-some, some-injective}
use mathlib.Core.Path.{subst}
use koshi_runtime.Base.Dict.{lookup, insert, lookup-insert}
use koshi_runtime.Base.Result.{Result, ok, err, fail_if, >>=-eq-ok}
use koshi_runtime.Config.{
  Config, Workload, Policy, sidecar_policy_catalog, default_sidecar_policy_id,
  default_enforcement_sidecar_config, sidecar_baseline,
}
use koshi_runtime.Config.Defaults.{HasSoundDefault, validate_lem}
use koshi_runtime.Config.Sound.{after_check, validate-lookup_policy}
use koshi_runtime.Config.Validate.{
  ConfigError, bad_mode, no_upstreams, no_policies, sidecar_workloads, is_empty, is_mode, validate,
  validate_upstreams, validate_policies, validate_sidecar_config,
}
use koshi_runtime.Identity.{WorkloadIdentity, no_identity}
use koshi_runtime.Policy.{by_map, new_map_engine, lookup_policy, policy_by_id}
use koshi_runtime.Startup.Load.{
  Process, find_policy, pod_workload, workload_id_of, load_file, checked, parse_config,
  load_sidecar, load_enforcement, sidecar_config, is_none, policy_choice, with_workload,
  missing_identity, policy_required, unknown_policy,
}
use koshi_runtime.Startup.Wire.Policies.{find_policy-IsSound, lookup-policy_by_id}
use koshi_runtime.Startup.Wire.Runs.{IsLoaded}
use koshi_runtime.Startup.Wire.Registers.{IsServed}

-- The one workload of a sidecar, and the validated policy that it names.
pub record IsSidecar (p : Process) (name : String) (q : Policy) (c : Config) : Type 0 where
  pub alone : c.workloads ≡ pod_workload (workload_id_of p) name ∷ []
  pub checked : (ids : List String) × (validate_policies c.policies [] ≡ ok ids)
  pub chosen : find_policy name c.policies ≡ some q

pub sidecar-lookup_policy :
    (p : Process) (name : String) (q : Policy) (c : Config) (ident : WorkloadIdentity)
    → IsSidecar p name q c
    → ident.workload_id ≡ workload_id_of p
    → lookup_policy (by_map (new_map_engine c)) ident ≡ some q
unfolding lookup_policy koshi_runtime.Policy.lookup_map new_map_engine
    koshi_runtime.Policy.resolve_workloads koshi_runtime.Policy.attach_first
    koshi_runtime.Policy.attach
sidecar-lookup_policy p name q c ident s same =
    let (ids, checked) = s.checked in
    let found = lookup-policy_by_id name c.policies [] ids [] q checked s.chosen in
    let own : lookup (workload_id_of p) (insert (workload_id_of p) q []) ≡ some q =
      lookup-insert (workload_id_of p) (workload_id_of p) q []
      ∙ rw ((eq_iff (workload_id_of p) (workload_id_of p)).1 refl) refl in
    rw (s.alone, same, found, own) refl

pub sidecar-IsLoaded :
    (p : Process) (name : String) (q : Policy) (c : Config) → IsSidecar p name q c → IsLoaded c
sidecar-IsLoaded p name q c s = record {
  checked = s.checked;
  served = λ _ i w e. served i w (ap (λ ws. get_elem? ws i) (sym s.alone) ∙ e);
}
  where
    served :
        (i : ℕ) (w : Workload)
        → get_elem? (pod_workload (workload_id_of p) name ∷ []) i ≡ some w
        → IsServed (by_map (new_map_engine c)) w
    served zero w e =
        let (ids, checked) = s.checked in
        (
          q,
          sidecar-lookup_policy p name q c (record no_identity { workload_id = w.id }) s
              (sym (ap (λ x. x.id) (some-injective (pod_workload (workload_id_of p) name) w e))),
          find_policy-IsSound name c.policies [] ids q checked s.chosen,
        )
    served (suc i) w e = absurd (none-ne-some w e)

pub ok-eq : {E A : Type 0} (a b : A) → ◌≡◌ {A = Result E A} (ok a) (ok b) → a ≡ b
ok-eq a b e = cc

unchecked : {A : Type 0} (r : Result ConfigError A) (a : A) → checked r ≡ ok a → r ≡ ok a
unchecked (ok b) a e = cc
unchecked (err x) a e = cc

pub load_file-IsLoaded :
    (p : Process) (path : String) (c : Config)
    → load_file p path ≡ ok c
    → IsLoaded c × HasSoundDefault c.default_policy
unfolding load_file
load_file-IsLoaded p path c l =
    let (c0, _, l1) = >>=-eq-ok (parse_config p path) (λ c0. checked (validate c0)) l in
    let v = unchecked (validate c0) c l1 in
    let (m, x, same, _, d, valid) = validate_lem c0 c v in
    (
      record {
        checked = rw same valid;
        served = λ _ i w at_i.
            validate-lookup_policy c0 c i w (record no_identity { workload_id = w.id }) v
              (ap (λ y. get_elem? y.workloads i) (sym same) ∙ at_i) refl;
      },
      rw same d,
    )

-- The policies that ValidateSidecarConfig accepts, for a configuration without workloads.
validate_sidecar_config_lem :
    (c : Config) (u : Unit {0})
    → validate_sidecar_config c ≡ ok u
    → (c.workloads ≡ []) × ((ids : List String) × (validate_policies c.policies [] ≡ ok ids))
unfolding validate_sidecar_config
validate_sidecar_config_lem c u v =
    let (_, v1) = after_check _ (bad_mode c.mode) _ u v in
    let (_, v2) = after_check (is_empty c.upstreams) no_upstreams _ u v1 in
    let (_, _, v3) = >>=-eq-ok (validate_upstreams c.upstreams) _ v2 in
    let (_, v4) = after_check (is_empty c.policies) no_policies _ u v3 in
    let (ids, valid, v5) = >>=-eq-ok (validate_policies c.policies []) _ v4 in
    (none_listed c.workloads v5, (ids, valid))
  where
    none_listed :
        (ws : List Workload) → fail_if (not (is_empty ws)) sidecar_workloads ≡ ok u → ws ≡ []
    none_listed [] e = refl
    none_listed (w ∷ ws) e = cc

-- The checks of the two sidecar modes: the policy is among the configuration's.
found_policy :
    (id : String) (ps : List Policy)
    → is_none (find_policy id ps) ≡ false
    → (q : Policy) × (find_policy id ps ≡ some q)
found_policy id ps h = elim (Option-cases (find_policy id ps)) [ inl e ↦ cc | inr x ↦ x ]

pub load_sidecar-IsSidecar :
    (p : Process) (path : String) (c : Config)
    → load_sidecar p path ≡ ok c
    → (q : Policy) × IsSidecar p (p.getenv "KOSHI_POLICY_OVERRIDE") q c
      × (c.mode
          ≡ (if str_eq (p.getenv "KOSHI_MODE") "enforcement" then "enforcement" else "listener"))
unfolding load_sidecar
load_sidecar-IsSidecar p path c l =
    let (c0, _, l1) = >>=-eq-ok (parse_config p path) _ l in
    let (u, v, l2) = >>=-eq-ok (checked (validate_sidecar_config c0)) _ l1 in
    let (none_listed, valid) =
      validate_sidecar_config_lem c0 u (unchecked (validate_sidecar_config c0) u v) in
    let (_, l3) = after_check _ missing_identity _ c l2 in
    let (_, l4) = after_check _ policy_required _ c l3 in
    let (known, l5) = after_check _ (unknown_policy (p.getenv "KOSHI_POLICY_OVERRIDE")) _ c l4 in
    let (q, found) = found_policy (p.getenv "KOSHI_POLICY_OVERRIDE") c0.policies known in
    (
      q,
      subst (IsSidecar p (p.getenv "KOSHI_POLICY_OVERRIDE") q) (ok-eq (sidecar_config p c0) c l5)
          (record {
            alone =
                ap
                  (λ ws.
                    ws ++ (pod_workload (workload_id_of p) (p.getenv "KOSHI_POLICY_OVERRIDE") ∷ []))
                  none_listed;
            checked = valid;
            chosen = found;
          }),
      sym (ap (λ x. x.mode) (ok-eq (sidecar_config p c0) c l5)),
    )

catalog_checked : (ids : List String) × (validate_policies sidecar_policy_catalog [] ≡ ok ids)
unfolding validate_policies koshi_runtime.Config.Validate.validate_policy
catalog_checked = ("sidecar-high-throughput" ∷ "sidecar-strict" ∷ "sidecar-baseline" ∷ [], refl)

catalog_default :
    (q : Policy) × (find_policy default_sidecar_policy_id sidecar_policy_catalog ≡ some q)
unfolding find_policy
catalog_default = (sidecar_baseline, refl)

pub load_enforcement-IsSidecar :
    (p : Process) (c : Config)
    → load_enforcement p ≡ ok c
    → (q : Policy) × IsSidecar p (policy_choice p) q c
      × (find_policy (policy_choice p) sidecar_policy_catalog ≡ some q)
      × (c ≡ with_workload (workload_id_of p) (policy_choice p) default_enforcement_sidecar_config)
      × ((str_eq (p.getenv "KOSHI_POD_NAMESPACE") ""
            || str_eq (p.getenv "KOSHI_WORKLOAD_KIND") ""
            || str_eq (p.getenv "KOSHI_WORKLOAD_NAME") "")
          ≡ false)
unfolding load_enforcement
load_enforcement-IsSidecar p c l =
    let (named, l1) = after_check _ missing_identity _ c l in
    let (known, l2) = after_check _ (unknown_policy (p.getenv "KOSHI_POLICY_OVERRIDE")) _ c l1 in
    let (q, found) = chosen known in
    let same =
      ok-eq (with_workload (workload_id_of p) (policy_choice p) default_enforcement_sidecar_config)
        c l2 in
    (
      q,
      subst (IsSidecar p (policy_choice p) q) same
          (record { alone = refl; checked = catalog_checked; chosen = found }),
      found,
      sym same,
      named,
    )
  where
    chosen :
        (not (str_eq (p.getenv "KOSHI_POLICY_OVERRIDE") "")
            && is_none (find_policy (p.getenv "KOSHI_POLICY_OVERRIDE") sidecar_policy_catalog))
          ≡ false
        → (q : Policy) × (find_policy (policy_choice p) sidecar_policy_catalog ≡ some q)
    chosen known = elim (Bool-cases (str_eq (p.getenv "KOSHI_POLICY_OVERRIDE") "")) [
      | inl e ↦ rw e catalog_default
      | inr e ↦
          rw e
            (found_policy (p.getenv "KOSHI_POLICY_OVERRIDE") sidecar_policy_catalog (rw e at known))
    ]
