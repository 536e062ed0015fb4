-- ===== src/Config/Sound.antt =====
-- What Validate of internal/config/config.go establishes.
use koshi_runtime.Base.{
  ◌≡◌, refl, Bool, true, false, not, ◌&&◌, List, [], ◌∷◌, some, String, Bool-cases, ◌⊎◌, inl, inr,
  arith, str_eq, eq_iff, ap, sym, ℕ, zero, suc, get_elem?, ◌∙◌,
}
use mathlib.Core.Path.{subst}
use koshi_runtime.Identity.{WorkloadIdentity}
use mathlib.Core.Option.{none-ne-some, some-injective}
use koshi_runtime.Base.Int.{pos, ◌≤ℤ◌, ◌<ℤ◌}
use koshi_runtime.Base.Result.{Result, ok, err, ◌>>◌, fail_if, >>=-eq-ok}
use koshi_runtime.Base.Dict.{Dict, lookup, insert, lookup-insert}
use koshi_runtime.Policy.{
  policy_by_id, attach, attach_first, resolve_workloads, new_map_engine, lookup_map, by_map,
  lookup_policy,
}
use koshi_runtime.Config.{Config, Workload, Policy}
use koshi_runtime.Config.Validate.{
  ConfigError, empty_policy_id, duplicate_policy, bad_policy, unknown_policy_ref, empty_workload_id,
  duplicate_workload, no_policy_refs, validate_identity, is_empty, wrap_error, contains,
  validate_policy, validate_policies, validate_default, validate_refs, validate_workload,
  validate_workloads, validate_rest, validate_normal, validate, normalize, default_addr, is_mode,
  bad_mode, no_upstreams, validate_upstreams, validate_header_keys,
}

-- The numbers of a policy that the runtime relies on.
abbrev pub IsSound : Policy → Type 0
IsSound p =
    (pos 0 <ℤ p.rolling_tokens.window_seconds)
    × (pos 0 <ℤ p.rolling_tokens.limit_tokens)
    × (pos 0 ≤ℤ p.rolling_tokens.burst_tokens)
    × (pos 0 ≤ℤ p.guards.max_tokens_per_request)

pub after_check :
    {E A : Type 0} (b : Bool) (e : E) (k : Result E A) (a : A)
    → (fail_if b e >> k) ≡ ok a
    → (b ≡ false) × (k ≡ ok a)
after_check b e k a h = ground arith

pub validate_policy-IsSound : (p : Policy) (u : Unit {0}) → validate_policy p ≡ ok u → IsSound p
unfolding validate_policy
validate_policy-IsSound p u h = ground arith

pub wrapped :
    {E F : Type 0} (f : E → F) (r : Result E (Unit {0})) (u : Unit {0})
    → wrap_error f r ≡ ok u
    → r ≡ ok tt
wrapped f (ok tt) u h = refl
wrapped f (err e) u h = cc

-- This key has a sound policy.
abbrev pub HasPolicy : String → Dict Policy → Type 0
HasPolicy k m = (p : Policy) × (lookup k m ≡ some p) × IsSound p

insert-HasPolicy :
    (j k : String) (p : Policy) (m : Dict Policy)
    → IsSound p
    → (str_eq j k ≡ true) ⊎ HasPolicy k m
    → HasPolicy k (insert j p m)
insert-HasPolicy j k p m s h = elim (Bool-cases (str_eq j k)) [
  | inl e ↦ (p, lookup-insert j k p m ∙ rw e refl, s)
  | inr e ↦ elim h [ inl e' ↦ cc | inr (q, l, s') ↦ (q, lookup-insert j k p m ∙ rw e l, s') ]
]

added :
    (p : Policy) (ids : List String) (m : Dict Policy)
    → IsSound p
    → ((k : String) → contains ids k ≡ true → HasPolicy k m)
    → (k : String) → contains (p.id ∷ ids) k ≡ true
    → HasPolicy k (insert p.id p m)
added p ids m s all k c = elim (Bool-cases (str_eq p.id k)) [
  | inl e ↦ insert-HasPolicy p.id k p m s (inl e)
  | inr e ↦ insert-HasPolicy p.id k p m s (inr (all k (rw e at c)))
]

pub ok-injective : {A : Type 0} (a b : A) → ◌≡◌ {A = Result ConfigError A} (ok a) (ok b) → a ≡ b
ok-injective a b e = cc

policies_by_id :
    (ps : List Policy) (ids ids' : List String) (m : Dict Policy)
    → validate_policies ps ids ≡ ok ids'
    → ((k : String) → contains ids k ≡ true → HasPolicy k m)
    → (k : String) → contains ids' k ≡ true
    → HasPolicy k (policy_by_id ps m)
unfolding validate_policies policy_by_id
policies_by_id [] ids ids' m h all k c =
    all k (ap (λ l. contains l k) (ok-injective ids ids' h) ∙ c)
policies_by_id (p ∷ ps) ids ids' m h all k c =
    let (_, h1) = after_check (str_eq p.id "") empty_policy_id _ ids' h in
    let (_, h2) = after_check (contains ids p.id) (duplicate_policy p.id) _ ids' h1 in
    let (u, ok_p, h3) = >>=-eq-ok (wrap_error (bad_policy p.id) (validate_policy p)) _ h2 in
    let sound =
      validate_policy-IsSound p tt (wrapped (bad_policy p.id) (validate_policy p) u ok_p) in
    policies_by_id ps (p.id ∷ ids) ids' (insert p.id p m) h3 (λ j c'. added p ids m sound all j c')
      k c

refs_known :
    (ids : List String) (w r : String) (rs : List String) (u : Unit {0})
    → validate_refs ids w (r ∷ rs) ≡ ok u
    → contains ids r ≡ true
unfolding validate_refs
refs_known ids w r rs u h =
    let (known, _) = after_check (not (contains ids r)) (unknown_policy_ref w r) _ u h in
    ground arith

first_ref :
    (ids seen : List String) (w : Workload) (u : Unit {0})
    → validate_workload ids seen w ≡ ok u
    → (r : String) × (rs : List String) × (w.policy_refs ≡ r ∷ rs) × (contains ids r ≡ true)
unfolding validate_workload
first_ref ids seen w u h =
    let (_, h1) = after_check (str_eq w.id "") empty_workload_id _ u h in
    let (_, h2) = after_check (contains seen w.id) (duplicate_workload w.id) _ u h1 in
    let (_, _, h3) = >>=-eq-ok (validate_identity w) _ h2 in
    let (u', refs, h4) = >>=-eq-ok (validate_refs ids w.id w.policy_refs) _ h3 in
    go w.policy_refs refl u' refs h4
  where
    go :
        (rs : List String)
        → w.policy_refs ≡ rs
        → (u' : Unit {0}) → validate_refs ids w.id w.policy_refs ≡ ok u'
        → fail_if (is_empty rs) (no_policy_refs w.id) ≡ ok u
        → (r : String) × (qs : List String) × (w.policy_refs ≡ r ∷ qs) × (contains ids r ≡ true)
    go [] e u' refs some_ref = cc
    go (r ∷ rs) e u' refs some_ref = (r, rs, e, refs_known ids w.id r rs u' (rw e at refs))

-- What is to be found: the key of a workload in the list, or one that has a policy already.
abbrev Wanted : String → List Workload → Dict Policy → Type 0
Wanted k ws m = HasPolicy k m ⊎ ((i : ℕ) × (w : Workload) × (get_elem? ws i ≡ some w) × (w.id ≡ k))

next-Wanted :
    (k : String) (w : Workload) (ws : List Workload) (q : Policy) (m : Dict Policy)
    → IsSound q
    → Wanted k (w ∷ ws) m
    → Wanted k ws (insert w.id q m)
next-Wanted k w ws q m s (inl h) = inl (insert-HasPolicy w.id k q m s (inr h))
next-Wanted k w ws q m s (inr (zero, v, e, e')) = inl (
    insert-HasPolicy w.id k q m s
      (inl ((eq_iff w.id k).1 (ap (λ x. x.id) (some-injective w v e) ∙ e'))))
next-Wanted k w ws q m s (inr (suc i, v, e, e')) = inr (i, v, e, e')

resolved :
    (ws : List Workload) (ids seen : List String) (hs : List Workload) (by_id m : Dict Policy)
    → validate_workloads ids seen ws ≡ ok hs
    → ((k : String) → contains ids k ≡ true → HasPolicy k by_id)
    → (k : String) → Wanted k ws m
    → HasPolicy k (resolve_workloads ws by_id m)
unfolding validate_workloads resolve_workloads attach_first attach
resolved [] ids seen hs by_id m v all k (inl h) = h
resolved [] ids seen hs by_id m v all k (inr (i, w, e, _)) = absurd (none-ne-some w e)
resolved (w ∷ ws) ids seen hs by_id m v all k h =
    let (u, one, v1) = >>=-eq-ok (validate_workload ids seen w) _ v in
    let (hs', more, _) = >>=-eq-ok (validate_workloads ids (w.id ∷ seen) ws) _ v1 in
    let (r, rs, refs, known) = first_ref ids seen w u one in
    let (q, found, s) = all r known in
    rw (refs, found)
      (resolved ws ids (w.id ∷ seen) hs' by_id (insert w.id q m) more all k
        (next-Wanted k w ws q m s h))

default_addr_engine : (c : Config) → new_map_engine (default_addr c) ≡ new_map_engine c
unfolding new_map_engine
default_addr_engine c = elim (Bool-cases (str_eq c.mode "listener" && str_eq c.listen_addr "")) [
  | inl e ↦ rw e refl
  | inr e ↦ rw e refl
]

normalize_workloads : (c : Config) → (normalize c).workloads ≡ c.workloads
normalize_workloads c = elim (Bool-cases (str_eq c.mode "")) [
  | inl e ↦ rw e refl
  | inr e ↦ rw e refl
]

not_empty :
    (ws : List Workload) (i : ℕ) (w : Workload) → get_elem? ws i ≡ some w → is_empty ws ≡ false
not_empty [] i w e = absurd (none-ne-some w e)
not_empty (x ∷ ws) i w e = refl

and_false : (a b : Bool) → b ≡ false → (a && b) ≡ false
and_false true b e = e
and_false false b e = refl

rest_resolves :
    (c c' : Config) (ids : List String) (i : ℕ) (w : Workload)
    → validate_rest c ids ≡ ok c'
    → ((k : String) → contains ids k ≡ true → HasPolicy k (policy_by_id c.policies []))
    → get_elem? c.workloads i ≡ some w
    → HasPolicy w.id (new_map_engine c').policies
unfolding validate_rest new_map_engine
rest_resolves c c' ids i w v all e =
    let listed =
      and_false (str_eq c.mode "listener") (is_empty c.workloads) (not_empty c.workloads i w e) in
    let (hs, each, v1) =
      >>=-eq-ok (validate_workloads ids [] c.workloads) _ (rw (validate_rest, listed) at v) in
    let (u, keys, v2) = >>=-eq-ok (validate_header_keys hs) _ v1 in
    subst (λ x. HasPolicy w.id x.policies)
      (sym (default_addr_engine c) ∙ ap new_map_engine (ok-injective (default_addr c) c' v2))
      (resolved c.workloads ids [] hs (policy_by_id c.policies []) [] each all w.id
        (inr (i, w, e, refl)))

-- Validation of a configuration that says its mode.
normal_resolves :
    (c c' : Config) (i : ℕ) (w : Workload)
    → validate_normal c ≡ ok c'
    → get_elem? c.workloads i ≡ some w
    → HasPolicy w.id (new_map_engine c').policies
unfolding validate_normal
normal_resolves c c' i w v e =
    let (_, v1) = after_check (not (is_mode c.mode)) (bad_mode c.mode) _ c' v in
    let (_, v2) = after_check (is_empty c.upstreams) no_upstreams _ c' v1 in
    let (_, _, v3) = >>=-eq-ok (validate_upstreams c.upstreams) _ v2 in
    let (ids, policies, v4) = >>=-eq-ok (validate_policies c.policies []) _ v3 in
    let (_, _, v5) = >>=-eq-ok (validate_default c.default_policy) _ v4 in
    rest_resolves c c' ids i w v5
      (policies_by_id c.policies [] ids [] policies (λ k none_known. cc)) e

-- Once Validate accepts a configuration, the engine built of it finds a policy for each of its
-- workloads, whose window and limit are positive and whose burst and guard are not negative.
pub validate-lookup_policy :
    (c c' : Config) (i : ℕ) (w : Workload) (ident : WorkloadIdentity)
    → validate c ≡ ok c'
    → get_elem? c.workloads i ≡ some w
    → ident.workload_id ≡ w.id
    → (p : Policy) × (lookup_policy (by_map (new_map_engine c')) ident ≡ some p) × IsSound p
unfolding validate lookup_policy lookup_map
validate-lookup_policy c c' i w ident v e same =
    let (p, found, s) =
      normal_resolves (normalize c) c' i w v
        (ap (λ ws. get_elem? ws i) (normalize_workloads c) ∙ e) in
    (p, rw (same, found) refl, s)
