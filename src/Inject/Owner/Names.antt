-- ===== src/Inject/Owner/Names.antt =====
-- What internal/inject/identity.go calls the workload of a replica set.
use Prim.Native.Char.{Char}
use Prim.Native.String.{[], ◌∷◌}
use text.Mathlib.TextLemmas.{nil-append, cons-append, append_cancel_right, cons≢nil}
use koshi_runtime.Base.{
  ◌≡◌, refl, ◌≢◌, sym, ◌∙◌, ap, String, str_eq, ◌<>◌, some, Bool-cases, inl, inr, false, List,
  eq_iff,
}
use koshi_runtime.Base.Dict.{Dict, lookup}
use koshi_runtime.Inject.Owner.{
  OwnerReference, strip_suffix, deployment_of, replica_set_owner, owner_identity, normalize_owner,
}

longer : (c : Char) (front suffix : String) → str_eq (c ∷ (front <> suffix)) suffix ≡ false
longer c front suffix = elim (Bool-cases (str_eq (c ∷ (front <> suffix)) suffix)) [
  | inr e ↦ e
  | inl e ↦ absurd (
      cons≢nil (
        append_cancel_right (c ∷ front) [] suffix (
          cons-append c front suffix
          ∙ (eq_iff (c ∷ (front <> suffix)) suffix).0 e
          ∙ sym (nil-append suffix))))
]

strip_suffix_whole : (suffix : String) → strip_suffix suffix suffix ≡ some []
unfolding strip_suffix
strip_suffix_whole [] = refl
strip_suffix_whole (c ∷ s) = rw ((eq_iff (c ∷ s) (c ∷ s)).1 refl) refl

-- What was put before a suffix is what taking it off leaves.
pub strip_suffix-append :
    (front suffix : String) → strip_suffix suffix (front <> suffix) ≡ some front
unfolding strip_suffix
strip_suffix-append [] suffix =
    ap (strip_suffix suffix) (nil-append suffix) ∙ strip_suffix_whole suffix
strip_suffix-append (c ∷ front) suffix =
    ap (strip_suffix suffix) (cons-append c front suffix)
    ∙ rw (longer c front suffix, strip_suffix-append front suffix) refl

not_empty : (s : String) → s ≢ [] → str_eq s "" ≡ false
not_empty s h = elim (Bool-cases (str_eq s "")) [
  | inl e ↦ absurd (h ((eq_iff s "").0 e))
  | inr e ↦ e
]

-- A replica set that is named for a deployment and the non-empty hash in the labels of the pod
-- is traced to that deployment, whatever its name contains.
normalize_owner-Deployment :
    (deployment hash pod_name : String) (labels : Dict String) (others : List OwnerReference)
    → hash ≢ []
    → lookup "pod-template-hash" labels ≡ some hash
    → normalize_owner
        (List.◌∷◌ (record { kind = "ReplicaSet"; name = deployment <> ("-" <> hash) }) others)
        labels
        pod_name
      ≡ ("Deployment", deployment)
unfolding normalize_owner owner_identity replica_set_owner deployment_of
normalize_owner-Deployment deployment hash pod_name labels others h found =
    rw
      (
        found,
        replica_set_owner,
        deployment_of,
        not_empty hash h,
        strip_suffix-append deployment ("-" <> hash),
      )
      refl
