-- ===== src/Startup/Wire/Policies.antt =====
-- The policy that cmd/koshi/main.go looks for by its ID, and the one internal/policy/engine.go finds.
use koshi_runtime.Base.{
  ◌≡◌, refl, sym, ◌∙◌, true, false, List, [], ◌∷◌, none, some, String, str_eq, eq_iff, Bool-cases,
  inl, inr,
}
use mathlib.Core.Option.{none-ne-some, some-injective}
use mathlib.Core.Path.{subst}
use koshi_runtime.Base.Dict.{Dict, lookup, insert, lookup-insert}
use koshi_runtime.Base.Result.{ok, >>=-eq-ok}
use koshi_runtime.Config.{Policy}
use koshi_runtime.Config.Sound.{IsSound, after_check, validate_policy-IsSound, wrapped}
use koshi_runtime.Config.Validate.{
  empty_policy_id, duplicate_policy, bad_policy, contains, wrap_error, validate_policy,
  validate_policies,
}
use koshi_runtime.Policy.{policy_by_id}
use koshi_runtime.Startup.Load.{find_policy}

-- The checks of the first policy of a list, and of the others.
first_policy :
    (p : Policy) (ps : List Policy) (ids ids' : List String)
    → validate_policies (p ∷ ps) ids ≡ ok ids'
    → (contains ids p.id ≡ false) × IsSound p × (validate_policies ps (p.id ∷ ids) ≡ ok ids')
unfolding validate_policies
first_policy p ps ids ids' h =
    let (_, h1) = after_check (str_eq p.id "") empty_policy_id _ ids' h in
    let (new, h2) = after_check (contains ids p.id) (duplicate_policy p.id) _ ids' h1 in
    let (u, ok_p, h3) = >>=-eq-ok (wrap_error (bad_policy p.id) (validate_policy p)) _ h2 in
    (new, validate_policy-IsSound p tt (wrapped (bad_policy p.id) (validate_policy p) u ok_p), h3)

pub find_policy-IsSound :
    (k : String) (ps : List Policy) (ids ids' : List String) (q : Policy)
    → validate_policies ps ids ≡ ok ids'
    → find_policy k ps ≡ some q
    → IsSound q
unfolding find_policy
find_policy-IsSound k [] ids ids' q v f = absurd (none-ne-some q f)
find_policy-IsSound k (p ∷ ps) ids ids' q v f =
    let (_, sound, rest) = first_policy p ps ids ids' v in
    elim (Bool-cases (str_eq p.id k)) [
      | inl e ↦ subst IsSound (some-injective p q (rw (find_policy, e) at f)) sound
      | inr e ↦ find_policy-IsSound k ps (p.id ∷ ids) ids' q rest (rw (find_policy, e) at f)
    ]

-- An ID that was seen before names no later policy.
find_policy_seen :
    (k : String) (ps : List Policy) (ids ids' : List String)
    → validate_policies ps ids ≡ ok ids'
    → contains ids k ≡ true
    → find_policy k ps ≡ none
unfolding find_policy
find_policy_seen k [] ids ids' v seen = refl
find_policy_seen k (p ∷ ps) ids ids' v seen =
    let (new, _, rest) = first_policy p ps ids ids' v in
    elim (Bool-cases (str_eq p.id k)) [
      | inl e ↦ let same = (eq_iff p.id k).0 e in cc
      | inr e ↦ rw (find_policy, e) (find_policy_seen k ps (p.id ∷ ids) ids' rest (rw e seen))
    ]

lookup_unnamed :
    (k : String) (ps : List Policy) (m : Dict Policy)
    → find_policy k ps ≡ none
    → lookup k (policy_by_id ps m) ≡ lookup k m
unfolding find_policy policy_by_id
lookup_unnamed k [] m f = refl
lookup_unnamed k (p ∷ ps) m f = elim (Bool-cases (str_eq p.id k)) [
  | inl e ↦ absurd (none-ne-some p (sym (rw (find_policy, e) at f)))
  | inr e ↦
      lookup_unnamed k ps (insert p.id p m) (rw (find_policy, e) at f)
      ∙ lookup-insert p.id k p m
      ∙ rw e refl
]

pub lookup-policy_by_id :
    (k : String) (ps : List Policy) (ids ids' : List String) (m : Dict Policy) (q : Policy)
    → validate_policies ps ids ≡ ok ids'
    → find_policy k ps ≡ some q
    → lookup k (policy_by_id ps m) ≡ some q
unfolding find_policy policy_by_id
lookup-policy_by_id k [] ids ids' m q v f = absurd (none-ne-some q f)
lookup-policy_by_id k (p ∷ ps) ids ids' m q v f =
    let (_, _, rest) = first_policy p ps ids ids' v in
    elim (Bool-cases (str_eq p.id k)) [
      | inl e ↦
          lookup_unnamed k ps (insert p.id p m)
            (find_policy_seen k ps (p.id ∷ ids) ids' rest (rw e refl))
          ∙ lookup-insert p.id k p m
          ∙ rw e (rw (find_policy, e) at f)
      | inr e ↦
          lookup-policy_by_id k ps (p.id ∷ ids) ids' (insert p.id p m) q rest
            (rw (find_policy, e) at f)
    ]
