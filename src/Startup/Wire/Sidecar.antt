-- ===== src/Startup/Wire/Sidecar.antt =====
-- The sidecar of an injected pod: how cmd/koshi/main.go identifies it and books its budget.
use koshi_runtime.Base.{
  suc, Option-cases, ◌⊎◌, inr, List, [], ◌∷◌, get_elem?, ℕ, ◌≡◌, refl, sym, ap, Bool, true, false,
  ◌||◌, some, String, str_eq, inl,
}
use koshi_runtime.Base.Result.{ok}
use koshi_runtime.Budget.Tracker.Frame.{AllValid}
use koshi_runtime.Config.{Config, Workload, Policy, sidecar_policy_catalog}
use koshi_runtime.Identity.{
  WorkloadIdentity, Request, resolve, resolve_pod, new_pod_resolver, by_pod, trim_space,
}
use koshi_runtime.Policy.{Engine, by_map, new_map_engine, lookup_policy}
use koshi_runtime.Startup.Load.{
  pod_workload, Process, find_policy, workload_id_of, policy_choice, load_sidecar, load_enforcement,
}
use koshi_runtime.Startup.Wire.{
  running, Wiring, resolver_of, wire, wire_enforcement, panicked, register_policy, register_default,
  register_workloads, register_found, params_of,
}
use koshi_runtime.Base.Int.{negsuc}
use koshi_runtime.Budget.Tracker.{Tracker, register, new_tracker}
use koshi_runtime.Budget.Window.{new_window}
use koshi_runtime.Startup.Wire.Fits.{catalog_fits}
use koshi_runtime.Startup.Wire.Loads.{
  load_sidecar-IsSidecar, load_enforcement-IsSidecar, sidecar-IsLoaded, sidecar-lookup_policy,
}
use koshi_runtime.Startup.Wire.Registers.{IsRegistered, IsServed}
use koshi_runtime.Startup.Wire.Runs.{wire_enforcement_runs}

resolve_own :
    (p : Process) (r : Request)
    → trim_space (p.getenv "KOSHI_POD_NAMESPACE") ≡ p.getenv "KOSHI_POD_NAMESPACE"
    → trim_space (p.getenv "KOSHI_WORKLOAD_KIND") ≡ p.getenv "KOSHI_WORKLOAD_KIND"
    → trim_space (p.getenv "KOSHI_WORKLOAD_NAME") ≡ p.getenv "KOSHI_WORKLOAD_NAME"
    → (str_eq (p.getenv "KOSHI_POD_NAMESPACE") ""
        || str_eq (p.getenv "KOSHI_WORKLOAD_KIND") ""
        || str_eq (p.getenv "KOSHI_WORKLOAD_NAME") "")
      ≡ false
    → (ident : WorkloadIdentity) × (resolve (by_pod (new_pod_resolver p.getenv)) r ≡ some ident)
      × (ident.workload_id ≡ workload_id_of p)
unfolding resolve resolve_pod new_pod_resolver
resolve_own p r a b c named =
    let (n, k, m) =
      all_false (str_eq (p.getenv "KOSHI_POD_NAMESPACE") "")
        (str_eq (p.getenv "KOSHI_WORKLOAD_KIND") "") (str_eq (p.getenv "KOSHI_WORKLOAD_NAME") "")
        named in
    (
      record {
        workload_id = workload_id_of p;
        namespace = p.getenv "KOSHI_POD_NAMESPACE";
        workload_kind = p.getenv "KOSHI_WORKLOAD_KIND";
        workload_name = p.getenv "KOSHI_WORKLOAD_NAME";
      },
      rw (resolve, resolve_pod, new_pod_resolver, a, b, c, n, k, m) refl,
      refl,
    )
  where
    all_false : (x y z : Bool) → (x || y || z) ≡ false → (x ≡ false) × (y ≡ false) × (z ≡ false)
    all_false false false false e = (refl, refl, refl)
    all_false true y z e = cc
    all_false false true z e = cc
    all_false false false true e = cc

-- A sidecar that enforces without a file runs on valid windows and attributes each request to
-- its own workload, for which it has registered a budget and for which the engine has the policy
-- chosen by KOSHI_POLICY_OVERRIDE, or the default one, from the built-in catalogue; its
-- namespace, kind and name are taken to have no outer white space.
pub load_enforcement-wire :
    (p : Process) (c : Config) (now : String → ℕ) (r : Request)
    → load_enforcement p ≡ ok c
    → trim_space (p.getenv "KOSHI_POD_NAMESPACE") ≡ p.getenv "KOSHI_POD_NAMESPACE"
    → trim_space (p.getenv "KOSHI_WORKLOAD_KIND") ≡ p.getenv "KOSHI_WORKLOAD_KIND"
    → trim_space (p.getenv "KOSHI_WORKLOAD_NAME") ≡ p.getenv "KOSHI_WORKLOAD_NAME"
    → (w : Wiring) × (ident : WorkloadIdentity) × (q : Policy) × (wire p c now ≡ running w)
      × AllValid w.tracker
      × (resolve w.resolver r ≡ some ident)
      × (ident.workload_id ≡ workload_id_of p)
      × (find_policy (policy_choice p) sidecar_policy_catalog ≡ some q)
      × (lookup_policy w.engine ident ≡ some q)
      × IsRegistered ident.workload_id w.tracker
unfolding wire resolver_of
load_enforcement-wire p c now r l a b d =
    let (q, s, found, same, named) = load_enforcement-IsSidecar p c l in
    let (ident, resolved, id) = resolve_own p r a b d named in
    let loaded = sidecar-IsLoaded p (policy_choice p) q c s in
    let mode : str_eq c.mode "listener" ≡ false = rw same refl in
    let (w, run, engine, resolver, all, own) =
      wire_enforcement_runs p c now (loaded.served mode) (rw same tt)
        (rw same (catalog_fits, tt)) in
    (
      w,
      ident,
      q,
      rw (wire, mode) run,
      all,
      rw (resolver, s.alone, resolver_of) resolved,
      id,
      found,
      rw engine (sidecar-lookup_policy p (policy_choice p) q c ident s id),
      own ident.workload_id
          (inl (0, pod_workload (workload_id_of p) (policy_choice p), rw s.alone refl, sym id)),
    )

-- The registrations of workloads that the engine serves come to an end, or panic.
register_workloads_ends :
    (engine : Engine) (ws : List Workload) (now : String → ℕ) (t : Tracker)
    → ((i : ℕ) (w : Workload) → get_elem? ws i ≡ some w → IsServed engine w)
    → ((t' : Tracker) × (register_workloads engine ws now t ≡ running t'))
      ⊎ (register_workloads engine ws now t ≡ panicked)
unfolding register_workloads register_found register_policy
register_workloads_ends engine [] now t served = inl (t, refl)
register_workloads_ends engine (w ∷ ws) now t served =
    let (p, found, _) = served 0 w refl in
    elim (Option-cases (register w.id (params_of p) (now w.id) t)) [
      | inl e ↦ inr (rw (register_workloads, found, register_found, register_policy, e) refl)
      | inr (t1, e) ↦
          rw (register_workloads, found, register_found, register_policy, e)
            (register_workloads_ends engine ws now t1 (λ i v q. served (suc i) v q))
    ]

-- A sidecar in enforcement mode whose file has a default policy with a negative window panics in
-- its wiring, although the loading accepts the file.
pub load_sidecar-wire :
    (p : Process) (path : String) (c : Config) (d : Policy) (n : ℕ) (now : String → ℕ)
    → load_sidecar p path ≡ ok c
    → p.getenv "KOSHI_MODE" ≡ "enforcement"
    → c.default_policy ≡ some d
    → d.rolling_tokens.window_seconds ≡ negsuc n
    → wire p c now ≡ panicked
unfolding wire wire_enforcement register_default register_policy register new_window
load_sidecar-wire p path c d n now l m def neg =
    let (q, s, mode) = load_sidecar-IsSidecar p path c l in
    let loaded = sidecar-IsLoaded p (p.getenv "KOSHI_POLICY_OVERRIDE") q c s in
    let enforcing : str_eq c.mode "listener" ≡ false = rw (mode, m) refl in
    elim (register_workloads_ends (by_map (new_map_engine c)) c.workloads now new_tracker
      (loaded.served enforcing)) [
        | inr stopped ↦ rw (wire, enforcing, wire_enforcement, stopped) refl
        | inl (t, run) ↦
            rw
              (
                wire,
                enforcing,
                wire_enforcement,
                run,
                def,
                register_default,
                register_policy,
                register,
                ap (λ k. new_window k d.rolling_tokens.burst_tokens (now "_default")) neg,
              )
              refl
      ]
