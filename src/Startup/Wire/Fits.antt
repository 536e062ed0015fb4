-- ===== src/Startup/Wire/Fits.antt =====
-- Configurations of internal/config/config.go whose windows internal/budget/window.go can allocate.
use koshi_runtime.Base.{
  ◌≡◌, arith, refl, true, false, Bool, List, [], ◌∷◌, Option, none, some, String, str_eq,
  Bool-cases, Option-cases, inl, inr, if◌then◌else◌, sym, ◌∙◌,
}
use mathlib.Core.Option.{none-ne-some, some-injective}
use mathlib.Core.Path.{subst}
use koshi_runtime.Base.Dict.{Dict, lookup, insert, lookup-insert}
use koshi_runtime.Config.{Config, Workload, Policy, sidecar_policy_catalog}
use koshi_runtime.Policy.{
  by_map, policy_by_id, attach, attach_first, resolve_workloads, new_map_engine, lookup_map,
  lookup_policy,
}
use koshi_runtime.Startup.Load.{find_policy}
use koshi_runtime.Startup.Wire.Registers.{Fits, DefaultFits, AllFit, AllServedFit}

-- No window of the configuration is longer than `make` takes.
abbrev pub ConfigFits : Config → Type 0
ConfigFits c = AllFit c.policies × DefaultFits c.default_policy

pub catalog_fits : AllFit sidecar_policy_catalog
catalog_fits = (omega arith, (omega arith, (omega arith, tt)))

-- Every policy of a map fits.
abbrev MapFits : Dict Policy → Type 0
MapFits m = (k : String) (p : Policy) → lookup k m ≡ some p → Fits p

empty-MapFits : MapFits []
unfolding lookup
empty-MapFits k p e = absurd (none-ne-some p e)

insert-MapFits :
    (j : String) (q : Policy) (m : Dict Policy) → Fits q → MapFits m → MapFits (insert j q m)
insert-MapFits j q m f all k p e = elim (Bool-cases (str_eq j k)) [
  | inl s ↦ subst Fits (some-injective q p (sym (lookup-insert j k q m ∙ rw s refl) ∙ e)) f
  | inr s ↦ all k p (sym (lookup-insert j k q m ∙ rw s refl) ∙ e)
]

policy_by_id-MapFits :
    (ps : List Policy) (m : Dict Policy) → AllFit ps → MapFits m → MapFits (policy_by_id ps m)
unfolding policy_by_id
policy_by_id-MapFits [] m fit all = all
policy_by_id-MapFits (p ∷ ps) m (f, fit) all =
    policy_by_id-MapFits ps (insert p.id p m) fit (insert-MapFits p.id p m f all)

attach_first-MapFits :
    (id : String) (refs : List String) (by_id m : Dict Policy)
    → MapFits by_id
    → MapFits m
    → MapFits (attach_first id refs by_id m)
unfolding attach_first attach
attach_first-MapFits id [] by_id m known all = all
attach_first-MapFits id (r ∷ rs) by_id m known all = elim (Option-cases (lookup r by_id)) [
  | inl e ↦ rw e all
  | inr (q, e) ↦ rw e (insert-MapFits id q m (known r q e) all)
]

resolve_workloads-MapFits :
    (ws : List Workload) (by_id m : Dict Policy)
    → MapFits by_id
    → MapFits m
    → MapFits (resolve_workloads ws by_id m)
unfolding resolve_workloads
resolve_workloads-MapFits [] by_id m known all = all
resolve_workloads-MapFits (w ∷ ws) by_id m known all =
    resolve_workloads-MapFits ws by_id (attach_first w.id w.policy_refs by_id m) known
      (attach_first-MapFits w.id w.policy_refs by_id m known all)

default_fits :
    (strict : Bool) (d : Option Policy) (p : Policy)
    → DefaultFits d
    → (if strict then none else d) ≡ some p
    → Fits p
default_fits true d p f e = absurd (none-ne-some p e)
default_fits false none p f e = absurd (none-ne-some p e)
default_fits false (some q) p f e = subst Fits (some-injective q p e) f

pub new_map_engine-AllServedFit :
    (c : Config) → ConfigFits c → AllServedFit (by_map (new_map_engine c))
unfolding lookup_policy lookup_map new_map_engine
new_map_engine-AllServedFit c (fit, d) ident p e =
    let by_id = policy_by_id c.policies [] in
    let m = resolve_workloads c.workloads by_id [] in
    elim (Option-cases (lookup ident.workload_id m)) [
      | inl f ↦ default_fits c.strict_mode c.default_policy p d (rw f at e)
      | inr (q, f) ↦ subst Fits (some-injective q p (rw f at e)) (
          resolve_workloads-MapFits c.workloads by_id []
            (policy_by_id-MapFits c.policies [] fit empty-MapFits) empty-MapFits ident.workload_id q
            f)
    ]

pub find_policy-Fits :
    (k : String) (ps : List Policy) (q : Policy) → AllFit ps → find_policy k ps ≡ some q → Fits q
unfolding find_policy
find_policy-Fits k [] q fit e = absurd (none-ne-some q e)
find_policy-Fits k (p ∷ ps) q (f, fit) e = elim (Bool-cases (str_eq p.id k)) [
  | inl s ↦ subst Fits (some-injective p q (rw (find_policy, s) at e)) f
  | inr s ↦ find_policy-Fits k ps q fit (rw (find_policy, s) at e)
]
