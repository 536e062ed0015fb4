-- ===== src/Startup/Wire/Starts.antt =====
-- A whole start of cmd/koshi/main.go, and what its modes leave behind.
use koshi_runtime.Base.{
  ℕ, ◌≡◌, ◌≢◌, refl, sym, Bool, true, false, not, ◌&&◌, [], ◌∷◌, some, String, str_eq, Bool-cases,
  ◌⊎◌, inl, inr, get_elem?, arith,
}
use mathlib.Core.Path.{subst}
use koshi_runtime.Base.Result.{Result, ok, err}
use koshi_runtime.Budget.Tracker.Frame.{AllValid}
use koshi_runtime.Config.{Config, Workload, Policy, sidecar_policy_catalog, default_listener_config}
use koshi_runtime.Config.Defaults.{HasSoundDefault}
use koshi_runtime.Proxy.Effects.{Handler, State}
use koshi_runtime.Startup.Load.{
  Process, Exit, unknown_policy, unsupported_mode, policy_choice, load_config,
}
use koshi_runtime.Startup.Wire.{Start, running, exited, Wiring, handler_of, state_of, wire, start}
use koshi_runtime.Startup.Wire.Fits.{ConfigFits}
use koshi_runtime.Startup.Wire.Loads.{
  load_file-IsLoaded, load_sidecar-IsSidecar, load_enforcement-IsSidecar, sidecar-IsLoaded, ok-eq,
}
use koshi_runtime.Startup.Wire.Registers.{IsRegistered, IsServed}
use koshi_runtime.Startup.Wire.Runs.{IsLoaded, wire-Settles, wire_enforcement_runs}

-- A configuration from a file is read in an injected pod.
abbrev pub in_pod : Process → Bool
in_pod p =
    not (str_eq (p.getenv "KOSHI_CONFIG_PATH") "")
    && not (str_eq (p.getenv "KOSHI_POD_NAMESPACE") "")

listener-IsLoaded : IsLoaded default_listener_config
unfolding koshi_runtime.Config.Validate.validate_policies
    koshi_runtime.Config.Validate.validate_policy
listener-IsLoaded = record {
  checked = ("sidecar-high-throughput" ∷ "sidecar-strict" ∷ "sidecar-baseline" ∷ [], refl);
  served = λ e. cc;
}

listener_sound : HasSoundDefault default_listener_config.default_policy
listener_sound = (omega arith, omega arith, omega arith, omega arith)

err_not_ok : (e : Exit) (c : Config) → ◌≢◌ {A = Result Exit Config} (err e) (ok c)
err_not_ok e c h = cc

load_config-IsLoaded :
    (p : Process) (c : Config)
    → load_config p ≡ ok c
    → IsLoaded c × (HasSoundDefault c.default_policy ⊎ (in_pod p ≡ true))
unfolding load_config
load_config-IsLoaded p c l =
    let path = p.getenv "KOSHI_CONFIG_PATH" in
    let mode = p.getenv "KOSHI_MODE" in
    elim (Bool-cases (in_pod p)) [
      | inl e ↦
          let (q, s, _) = load_sidecar-IsSidecar p path c (rw (load_config, e) at l) in
          (sidecar-IsLoaded p (p.getenv "KOSHI_POLICY_OVERRIDE") q c s, inr e)
      | inr e ↦ elim (Bool-cases (str_eq path "")) [
        | inr f ↦
            let (loaded, d) = load_file-IsLoaded p path c (rw (load_config, e, f) at l) in
            (loaded, inl d)
        | inl f ↦ elim (Bool-cases (str_eq mode "enforcement")) [
          | inl g ↦
              let (q, s, _, same, _) =
                load_enforcement-IsSidecar p c (rw (load_config, e, f, g) at l) in
              (sidecar-IsLoaded p (policy_choice p) q c s, inl (rw same tt))
          | inr g ↦ elim (Bool-cases (str_eq mode "")) [
            | inl h ↦
                subst (λ x. IsLoaded x × (HasSoundDefault x.default_policy ⊎ (in_pod p ≡ true)))
                  (ok-eq default_listener_config c (rw (load_config, e, f, g, h) at l))
                  (listener-IsLoaded, inl listener_sound)
            | inr h ↦
                absurd (err_not_ok (unsupported_mode mode) c (rw (load_config, e, f, g, h) at l))
          ]
        ]
      ]
    ]

-- What a start comes to: an exit for what the loading or the wiring refuses, or a handler on valid
-- windows.
abbrev pub Outcome : Process → Start (Config × Handler × State) → Type 0
Outcome p s =
    ((e : Exit) × (load_config p ≡ err e) × (s ≡ exited e))
    ⊎ (s ≡ exited (unknown_policy (p.getenv "KOSHI_POLICY_OVERRIDE")))
    ⊎ ((c : Config) × (w : Wiring) × (load_config p ≡ ok c)
        × (s ≡ running (c, handler_of c w, state_of w))
        × AllValid w.tracker)

-- A start that reads no configuration file inside a pod, and loads no configuration with a
-- window of more than `max_buckets` seconds, never panics: it exits with the error of the
-- loading, or for a KOSHI_POLICY_OVERRIDE that names no policy, or it serves with every
-- registered window valid.
pub start-Outcome :
    (p : Process) (now : String → ℕ)
    → in_pod p ≡ false
    → ((c : Config) → load_config p ≡ ok c → ConfigFits c)
    → Outcome p (start p now)
unfolding start
start-Outcome p now out fits = elim (loads (load_config p) refl) [
  | inl (e, l) ↦ inl (e, l, rw (start, l) refl)
  | inr (c, l) ↦
      let (loaded, d) = load_config-IsLoaded p c l in
      elim (wire-Settles p c now loaded (elim d [ inl s ↦ s | inr e ↦ cc ]) (fits c l)) [
        | inl (w, run, all) ↦ inr (inr (c, w, l, rw (start, l, run) refl, all))
        | inr x ↦ inr (inl (rw (start, l, x) refl))
      ]
]
  where
    loads :
        (r : Result Exit Config)
        → load_config p ≡ r
        → ((e : Exit) × (load_config p ≡ err e)) ⊎ ((c : Config) × (load_config p ≡ ok c))
    loads (ok c) l = inr (c, l)
    loads (err e) l = inl (e, l)

-- Once a configuration is loaded that is not for the listener and whose default policy, if any,
-- is sound, and none of whose windows is longer than `max_buckets` seconds, the wiring runs, every window is valid, and for each workload of the configuration a
-- budget is registered and the engine finds a sound policy.
pub load_config-wire :
    (p : Process) (c : Config) (now : String → ℕ) (i : ℕ) (v : Workload)
    → load_config p ≡ ok c
    → str_eq c.mode "listener" ≡ false
    → HasSoundDefault c.default_policy
    → ConfigFits c
    → get_elem? c.workloads i ≡ some v
    → (w : Wiring) × (wire p c now ≡ running w)
      × AllValid w.tracker
      × IsRegistered v.id w.tracker
      × IsServed w.engine v
unfolding wire
load_config-wire p c now i v l m d fits e =
    let (loaded, _) = load_config-IsLoaded p c l in
    let served = loaded.served m in
    let (w, run, same, _, all, own) = wire_enforcement_runs p c now served d fits in
    (
      w,
      rw (wire, m) run,
      all,
      own v.id (inl (i, v, e, refl)),
      subst (λ x. IsServed x v) (sym same) (served i v e),
    )
