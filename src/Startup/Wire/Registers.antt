-- ===== src/Startup/Wire/Registers.antt =====
-- The registrations of cmd/koshi/main.go.
use koshi_runtime.Base.{
  ℕ, zero, suc, ◌<◌, ◌≤◌, ◌≡◌, refl, sym, ap, ◌∙◌, Bool-cases, Option-cases, inl, inr, List, [],
  ◌∷◌, Option, none, some, String, str_eq, eq_iff, get_elem?, arith,
}
use mathlib.Core.Option.{none-ne-some, some-injective}
use koshi_runtime.Base.Dict.{lookup, lookup-insert}
use koshi_runtime.Base.Int.{ℤ, pos, negsuc, ◌<ℤ◌, ◌≤ℤ◌}
use koshi_runtime.Budget.Tracker.{Tracker, WorkloadState, load_or_store, register}
use koshi_runtime.Budget.Tracker.Frame.{AllValid, insert-AllValid}
use koshi_runtime.Budget.Tracker.Register.{new_window_runs}
use koshi_runtime.Budget.Window.{new_window, max_buckets}
use koshi_runtime.Budget.Window.Valid.{IsValid}
use koshi_runtime.Config.{Policy, Workload}
use koshi_runtime.Config.Defaults.{HasSoundDefault}
use koshi_runtime.Config.Sound.{IsSound}
use koshi_runtime.Identity.{WorkloadIdentity, no_identity}
use koshi_runtime.Policy.{Engine, lookup_policy}
use koshi_runtime.Startup.Wire.{
  running, register_policy, register_default, register_found, register_workloads,
}

-- A budget is kept for this key.
abbrev pub IsRegistered : String → Tracker → Type 0
IsRegistered k t = (ws : WorkloadState) × (lookup k t ≡ some ws)

load_or_store-IsRegistered :
    (id k : String) (ws : WorkloadState) (t : Tracker)
    → IsRegistered k t
    → IsRegistered k (load_or_store id ws t)
unfolding load_or_store
load_or_store-IsRegistered id k ws t (x, e) = elim (Option-cases (lookup id t)) [
  | inr (y, f) ↦ rw (load_or_store, f) (x, e)
  | inl f ↦
      rw (load_or_store, f)
        (elim (Bool-cases (str_eq id k)) [
          | inl s ↦ (ws, lookup-insert id k ws t ∙ rw s refl)
          | inr s ↦ (x, lookup-insert id k ws t ∙ rw s e)
        ])
]

load_or_store_self :
    (id : String) (ws : WorkloadState) (t : Tracker) → IsRegistered id (load_or_store id ws t)
unfolding load_or_store
load_or_store_self id ws t = elim (Option-cases (lookup id t)) [
  | inr (y, f) ↦ rw (load_or_store, f) (y, f)
  | inl f ↦ rw (load_or_store, f) (ws, lookup-insert id id ws t ∙ rw ((eq_iff id id).1 refl) refl)
]

load_or_store-AllValid :
    (id : String) (ws : WorkloadState) (t : Tracker)
    → AllValid t
    → IsValid ws.window
    → AllValid (load_or_store id ws t)
unfolding load_or_store
load_or_store-AllValid id ws t all v = elim (Option-cases (lookup id t)) [
  | inr (y, f) ↦ rw (load_or_store, f) all
  | inl f ↦ rw (load_or_store, f) (insert-AllValid id ws t all v)
]

-- What a registration leaves: valid windows, its own key, and the keys before it.
pub record IsBooked (P : String → Type 0) (t t' : Tracker) : Type 0 where
  pub valid : AllValid t'
  pub own : (k : String) → P k → IsRegistered k t'
  pub kept : (k : String) → IsRegistered k t → IsRegistered k t'

-- A length in seconds that `make` takes.
abbrev pub Fits : Policy → Type 0
Fits p = p.rolling_tokens.window_seconds ≤ℤ pos max_buckets

-- So for a default policy, when there is one, and for every policy of a list.
abbrev pub DefaultFits : Option Policy → Type 0
DefaultFits none = Unit
DefaultFits (some p) = Fits p

abbrev pub AllFit : List Policy → Type 0
AllFit [] = Unit
AllFit (p ∷ ps) = Fits p × AllFit ps

positive :
    (n : ℤ)
    → pos 0 <ℤ n
    → n ≤ℤ pos max_buckets
    → (m : ℕ) × (n ≡ pos m) × (0 < m) × (m ≤ max_buckets)
positive (pos m) h g = (m, refl, omega arith, omega arith)
positive (negsuc m) h g = absurd (omega arith)

pub register_policy-IsBooked :
    (id : String) (p : Policy) (now : String → ℕ) (t : Tracker)
    → IsSound p
    → Fits p
    → AllValid t
    → (t' : Tracker) × (register_policy id p now t ≡ running t') × IsBooked (λ k. k ≡ id) t t'
unfolding register_policy register
register_policy-IsBooked id p now t s fits all =
    let (m, e, h, most) = positive p.rolling_tokens.window_seconds s.0 fits in
    let (w, run, v) = new_window_runs m p.rolling_tokens.burst_tokens (now id) h most in
    let ws : WorkloadState = record {
      window = w;
      window_seconds = p.rolling_tokens.window_seconds;
      limit_tokens = p.rolling_tokens.limit_tokens;
    } in
    (
      load_or_store id ws t,
      rw
          (
            register_policy,
            register,
            ap (λ n. new_window n p.rolling_tokens.burst_tokens (now id)) e ∙ run,
          )
          refl,
      record {
        valid = load_or_store-AllValid id ws t all v;
        own = λ k q. rw q (load_or_store_self id ws t);
        kept = λ k r. load_or_store-IsRegistered id k ws t r;
      },
    )

-- The keys of the workloads.
abbrev pub IsListed : List Workload → String → Type 0
IsListed ws k = (i : ℕ) × (w : Workload) × (get_elem? ws i ≡ some w) × (w.id ≡ k)

-- The engine finds a sound policy for the workload.
abbrev pub IsServed : Engine → Workload → Type 0
IsServed engine w =
    (p : Policy) × (lookup_policy engine (record no_identity { workload_id = w.id }) ≡ some p)
    × IsSound p

-- Every policy that the engine finds has a window that `make` takes.
abbrev pub AllServedFit : Engine → Type 0
AllServedFit engine =
    (ident : WorkloadIdentity) (p : Policy) → lookup_policy engine ident ≡ some p → Fits p

pub register_workloads-IsBooked :
    (engine : Engine) (ws : List Workload) (now : String → ℕ) (t : Tracker)
    → ((i : ℕ) (w : Workload) → get_elem? ws i ≡ some w → IsServed engine w)
    → AllServedFit engine
    → AllValid t
    → (t' : Tracker) × (register_workloads engine ws now t ≡ running t')
      × IsBooked (IsListed ws) t t'
unfolding register_workloads register_found
register_workloads-IsBooked engine [] now t served fits all = (
  t,
  refl,
  record { valid = all; own = λ k (i, w, e, _). absurd (none-ne-some w e); kept = λ k r. r },
)
register_workloads-IsBooked engine (w ∷ ws) now t served fits all =
    let (p, found, sound) = served 0 w refl in
    let (t1, run1, b1) = register_policy-IsBooked w.id p now t sound (fits _ p found) all in
    let (t2, run2, b2) =
      register_workloads-IsBooked engine ws now t1 (λ i v e. served (suc i) v e) fits b1.valid in
    (
      t2,
      rw (register_workloads, found, register_found, run1) run2,
      record { valid = b2.valid; own = listed t1 t2 b1 b2; kept = λ k r. b2.kept k (b1.kept k r) },
    )
  where
    listed :
        (t1 t2 : Tracker)
        → IsBooked (λ k. k ≡ w.id) t t1
        → IsBooked (IsListed ws) t1 t2
        → (k : String) → IsListed (w ∷ ws) k
        → IsRegistered k t2
    listed t1 t2 b1 b2 k (zero, v, e, same) =
        b2.kept k (b1.own k (sym same ∙ sym (ap (λ x. x.id) (some-injective w v e))))
    listed t1 t2 b1 b2 k (suc i, v, e, same) = b2.own k (i, v, e, same)

-- The key of the default policy, when there is one.
abbrev pub IsDefaultKey : Option Policy → String → Type 0
IsDefaultKey none k = ⊥
IsDefaultKey (some p) k = k ≡ "_default"

pub register_default-IsBooked :
    (d : Option Policy) (now : String → ℕ) (t : Tracker)
    → HasSoundDefault d
    → DefaultFits d
    → AllValid t
    → (t' : Tracker) × (register_default d now t ≡ running t') × IsBooked (IsDefaultKey d) t t'
unfolding register_default
register_default-IsBooked none now t s fits all =
    (t, refl, record { valid = all; own = λ k e. absurd e; kept = λ k r. r })
register_default-IsBooked (some p) now t s fits all =
    register_policy-IsBooked "_default" p now t s fits all
