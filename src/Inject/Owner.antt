-- ===== src/Inject/Owner.antt =====
-- internal/inject/identity.go: the kind and the name of the workload that owns a pod.
pub mod Names
use Prim.Native.String.{[], ◌∷◌}
use koshi_runtime.Base.{Bool, ◌||◌, Option, none, some, String, str_eq, ◌<>◌, if◌then◌else◌, List}
use koshi_runtime.Base.Dict.{Dict, lookup}

-- metav1.OwnerReference, by the two fields that are read.
pub record OwnerReference : Type 0 where
  pub kind : String
  pub name : String

-- strings.HasSuffix and strings.TrimSuffix: what stands before the suffix, if it is one.
unfoldable pub strip_suffix : String → String → Option String
strip_suffix suffix [] = if str_eq [] suffix then some [] else none
strip_suffix suffix (c ∷ s) =
    if str_eq (c ∷ s) suffix
    then some []
    else (elim (strip_suffix suffix s) [ none ↦ none | some front ↦ some (c ∷ front) ])

-- The name of the deployment behind a replica set, where its name ends in the hash.
unfoldable pub deployment_of : Option String → String → Option String
unfolding strip_suffix
deployment_of none name = none
deployment_of (some hash) name = if str_eq hash "" then none else strip_suffix ("-" <> hash) name

unfoldable pub replica_set_owner : Option String → String → String × String
unfolding deployment_of
replica_set_owner hash name = elim (deployment_of hash name) [
  | some front ↦ ("Deployment", front)
  | none ↦ ("ReplicaSet", name)
]

-- The first two cases of the switch and its default: every other kind is used as it is.
unfoldable pub owner_identity : OwnerReference → Dict String → String × String
unfolding replica_set_owner
owner_identity owner labels =
    if str_eq owner.kind "ReplicaSet"
    then replica_set_owner (lookup "pod-template-hash" labels) owner.name
    else (owner.kind, owner.name)

unfoldable pub normalize_owner : List OwnerReference → Dict String → String → String × String
unfolding owner_identity
normalize_owner List.[] labels pod_name = ("Pod", pod_name)
normalize_owner (List.◌∷◌ owner _) labels pod_name = owner_identity owner labels
