-- ===== src/Config/Defaults.antt =====
-- What Validate of internal/config/config.go leaves in the configuration.
use koshi_runtime.Base.{
  ◌≡◌, refl, sym, ◌∙◌, ap, true, not, ◌&&◌, List, [], Option, none, some, String, Bool-cases, inl,
  inr, str_eq, arith,
}
use koshi_runtime.Base.Result.{ok, >>=-eq-ok}
use koshi_runtime.Config.{Config, Policy}
use koshi_runtime.Config.Sound.{
  IsSound, after_check, validate_policy-IsSound, wrapped, ok-injective,
}
use koshi_runtime.Config.Validate.{
  bad_mode, no_upstreams, bad_default_policy, listener_without_default, is_empty, is_mode,
  normalize, default_addr, validate_policies, validate_upstreams, validate_workloads,
  validate_header_keys, validate_policy, validate_default, validate_rest, validate_normal, validate,
}

-- A default policy, when there is one, is sound.
abbrev pub HasSoundDefault : Option Policy → Type 0
HasSoundDefault none = Unit
HasSoundDefault (some p) = IsSound p

validate_default-HasSoundDefault :
    (d : Option Policy) (u : Unit {0}) → validate_default d ≡ ok u → HasSoundDefault d
unfolding validate_default
validate_default-HasSoundDefault none u h = tt
validate_default-HasSoundDefault (some p) u h =
    validate_policy-IsSound p tt (wrapped bad_default_policy (validate_policy p) u h)

validate_rest-default_addr :
    (c c' : Config) (ids : List String) → validate_rest c ids ≡ ok c' → c' ≡ default_addr c
unfolding validate_rest
validate_rest-default_addr c c' ids h =
    elim (Bool-cases (str_eq c.mode "listener" && is_empty c.workloads)) [
      | inl e ↦
          let (_, r) = after_check _ listener_without_default _ c' (rw (validate_rest, e) at h) in
          sym (ok-injective (default_addr c) c' r)
      | inr e ↦
          let (hs, _, r1) =
            >>=-eq-ok (validate_workloads ids [] c.workloads) _ (rw (validate_rest, e) at h) in
          let (_, _, r2) = >>=-eq-ok (validate_header_keys hs) _ r1 in
          sym (ok-injective (default_addr c) c' r2)
    ]

validate_normal_lem :
    (c c' : Config)
    → validate_normal c ≡ ok c'
    → (c' ≡ default_addr c)
      × (is_mode c.mode ≡ true)
      × HasSoundDefault c.default_policy
      × ((ids : List String) × (validate_policies c.policies [] ≡ ok ids))
unfolding validate_normal
validate_normal_lem c c' v =
    let (m, v1) = after_check (not (is_mode c.mode)) (bad_mode c.mode) _ c' v in
    let (_, v2) = after_check (is_empty c.upstreams) no_upstreams _ c' v1 in
    let (_, _, v3) = >>=-eq-ok (validate_upstreams c.upstreams) _ v2 in
    let (ids, checked, v4) = >>=-eq-ok (validate_policies c.policies []) _ v3 in
    let (u, d, v5) = >>=-eq-ok (validate_default c.default_policy) _ v4 in
    (
      validate_rest-default_addr c c' ids v5,
      ground arith,
      validate_default-HasSoundDefault c.default_policy u d,
      (ids, checked),
    )

default_addr_lem : (c : Config) → (x : String) × (default_addr c ≡ record c { listen_addr = x })
default_addr_lem c = elim (Bool-cases (str_eq c.mode "listener" && str_eq c.listen_addr "")) [
  | inl e ↦ (":15080", rw e refl)
  | inr e ↦ (c.listen_addr, rw e refl)
]

normalize_lem : (c : Config) → (m : String) × (normalize c ≡ record c { mode = m })
normalize_lem c = elim (Bool-cases (str_eq c.mode "")) [
  | inl e ↦ ("enforcement", rw e refl)
  | inr e ↦ (c.mode, rw e refl)
]

-- What an accepted configuration is: the given one with a mode and an address written into it. Its
-- policies and its default policy are sound.
pub validate_lem :
    (c c' : Config)
    → validate c ≡ ok c'
    → (m : String) × (x : String) × (c' ≡ record c { mode = m; listen_addr = x })
      × (is_mode m ≡ true)
      × HasSoundDefault c.default_policy
      × ((ids : List String) × (validate_policies c.policies [] ≡ ok ids))
unfolding validate
validate_lem c c' v =
    let (m, n) = normalize_lem c in
    let (same, known, d, checked) =
      validate_normal_lem (record c { mode = m }) c' (ap validate_normal (sym n) ∙ v) in
    let (x, a) = default_addr_lem (record c { mode = m }) in (m, x, same ∙ a, known, d, checked)
