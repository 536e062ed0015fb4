-- ===== src/Startup/Wire/Runs.antt =====
-- What the wiring of cmd/koshi/main.go leaves, in either mode.
use koshi_runtime.Base.{
  ℕ, ◌≡◌, refl, sym, ◌∙◌, ap, Bool, true, false, List, [], ◌∷◌, Option, none, some, String, str_eq,
  Bool-cases, Option-cases, ◌⊎◌, inl, inr, get_elem?, ◌<>◌,
}
use mathlib.Core.Option.{none-ne-some}
use koshi_runtime.Base.Result.{ok}
use koshi_runtime.Budget.Tracker.{new_tracker}
use koshi_runtime.Budget.Tracker.Frame.{AllValid}
use koshi_runtime.Config.{Config, Workload, Policy}
use koshi_runtime.Config.Defaults.{HasSoundDefault}
use koshi_runtime.Config.Sound.{IsSound}
use koshi_runtime.Config.Validate.{validate_policies}
use koshi_runtime.Identity.{by_pod, new_pod_resolver}
use koshi_runtime.Policy.{by_map, override, new_map_engine}
use koshi_runtime.Startup.Load.{Process, unknown_policy, find_policy}
use koshi_runtime.Startup.Wire.{
  Start, running, exited, Wiring, resolver_of, wire_override, wire_listener, wire_enforcement, wire,
}
use koshi_runtime.Startup.Wire.Policies.{find_policy-IsSound}
use koshi_runtime.Startup.Wire.Fits.{ConfigFits, new_map_engine-AllServedFit, find_policy-Fits}
use koshi_runtime.Startup.Wire.Registers.{
  Fits, IsRegistered, IsListed, IsServed, IsDefaultKey, register_policy-IsBooked,
  register_default-IsBooked, register_workloads-IsBooked,
}

-- What the wiring relies on: its policies are validated, and in the enforcement mode the engine
-- finds a sound policy for each workload.
pub record IsLoaded (c : Config) : Type 0 where
  pub checked : (ids : List String) × (validate_policies c.policies [] ≡ ok ids)
  pub served :
      str_eq c.mode "listener" ≡ false
      → (i : ℕ) (w : Workload) → get_elem? c.workloads i ≡ some w
      → IsServed (by_map (new_map_engine c)) w

pub new_tracker-AllValid : AllValid new_tracker
unfolding koshi_runtime.Base.Dict.lookup
new_tracker-AllValid k ws e = absurd (none-ne-some ws e)

pub wire_enforcement_runs :
    (p : Process) (c : Config) (now : String → ℕ)
    → ((i : ℕ) (w : Workload)
        → get_elem? c.workloads i ≡ some w
        → IsServed (by_map (new_map_engine c)) w)
    → HasSoundDefault c.default_policy
    → ConfigFits c
    → (w : Wiring) × (wire_enforcement p c now ≡ running w)
      × (w.engine ≡ by_map (new_map_engine c))
      × (w.resolver ≡ resolver_of p c.workloads)
      × AllValid w.tracker
      × ((k : String)
          → IsListed c.workloads k ⊎ IsDefaultKey c.default_policy k
          → IsRegistered k w.tracker)
unfolding wire_enforcement
wire_enforcement_runs p c now served d fits =
    let (t1, run1, b1) =
      register_workloads-IsBooked (by_map (new_map_engine c)) c.workloads now new_tracker served
        (new_map_engine-AllServedFit c fits) new_tracker-AllValid in
    let (t2, run2, b2) = register_default-IsBooked c.default_policy now t1 d fits.1 b1.valid in
    (
      record {
        resolver = resolver_of p c.workloads;
        engine = by_map (new_map_engine c);
        accounting_key = "";
        tracker = t2;
      },
      rw (wire_enforcement, run1, run2) refl,
      refl,
      refl,
      b2.valid,
      λ k h. elim h [ inl l ↦ b2.kept k (b1.own k l) | inr l ↦ b2.own k l ],
    )

wire_override_runs :
    (p : Process) (c : Config) (now : String → ℕ) (q : Policy)
    → IsSound q
    → Fits q
    → (w : Wiring) × (wire_override p c now (some q) ≡ running w)
      × AllValid w.tracker
      × IsRegistered w.accounting_key w.tracker
      × (w.engine ≡ override q)
unfolding wire_override
wire_override_runs p c now q s fits =
    let key = "listener_policy/" <> p.getenv "KOSHI_POLICY_OVERRIDE" in
    let (t, run, b) = register_policy-IsBooked key q now new_tracker s fits new_tracker-AllValid in
    (
      record {
        resolver = by_pod (new_pod_resolver p.getenv);
        engine = override q;
        accounting_key = key;
        tracker = t;
      },
      rw (wire_override, run) refl,
      b.valid,
      b.own key refl,
      refl,
    )

wire_default_runs :
    (p : Process) (c : Config) (now : String → ℕ)
    → str_eq (p.getenv "KOSHI_POLICY_OVERRIDE") "" ≡ true
    → HasSoundDefault c.default_policy
    → ConfigFits c
    → (w : Wiring) × (wire_listener p c now ≡ running w)
      × AllValid w.tracker
      × ((k : String) → IsDefaultKey c.default_policy k → IsRegistered k w.tracker)
unfolding wire_listener
wire_default_runs p c now e d fits =
    let (t, run, b) =
      register_default-IsBooked c.default_policy now new_tracker d fits.1 new_tracker-AllValid in
    (
      record {
        resolver = by_pod (new_pod_resolver p.getenv);
        engine = by_map (new_map_engine c);
        accounting_key = "_default";
        tracker = t;
      },
      rw (wire_listener, e, run) refl,
      b.valid,
      b.own,
    )

-- It runs on valid windows, or it exits for the policy it does not know.
abbrev pub Settles : Process → Start Wiring → Type 0
Settles p s =
    ((w : Wiring) × (s ≡ running w) × AllValid w.tracker)
    ⊎ (s ≡ exited (unknown_policy (p.getenv "KOSHI_POLICY_OVERRIDE")))

wire_listener-Settles :
    (p : Process) (c : Config) (now : String → ℕ)
    → IsLoaded c
    → HasSoundDefault c.default_policy
    → ConfigFits c
    → Settles p (wire_listener p c now)
unfolding wire_listener wire_override
wire_listener-Settles p c now l d fits =
    let name = p.getenv "KOSHI_POLICY_OVERRIDE" in
    let (ids, checked) = l.checked in
    elim (Bool-cases (str_eq name "")) [
      | inl e ↦ let (w, run, all, _) = wire_default_runs p c now e d fits in inl (w, run, all)
      | inr e ↦ elim (Option-cases (find_policy name c.policies)) [
        | inl f ↦ inr (rw (wire_listener, e, f, wire_override) refl)
        | inr (q, f) ↦
            let (w, run, all, _, _) =
              wire_override_runs p c now q (find_policy-IsSound name c.policies [] ids q checked f)
                (find_policy-Fits name c.policies q fits.0 f) in
            inl (w, rw (wire_listener, e, f) run, all)
      ]
    ]

pub wire-Settles :
    (p : Process) (c : Config) (now : String → ℕ)
    → IsLoaded c
    → HasSoundDefault c.default_policy
    → ConfigFits c
    → Settles p (wire p c now)
unfolding wire
wire-Settles p c now l d fits = elim (Bool-cases (str_eq c.mode "listener")) [
  | inl e ↦ rw (wire, e) (wire_listener-Settles p c now l d fits)
  | inr e ↦
      let (w, run, _, _, all, _) = wire_enforcement_runs p c now (l.served e) d fits in
      inl (w, rw (wire, e) run, all)
]
