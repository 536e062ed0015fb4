-- ===== src/Inject/Apply.antt =====
-- What the operations of internal/inject/webhook.go do to a pod, by the `add` of RFC 6902: the
-- place that a path names must be there, a member is added or replaced, and `-` is behind the end
-- of an array. That a number as the last token puts an element in front of another is left out.
pub mod Containers
pub mod Injected
pub mod Environment
use koshi_runtime.Base.{
  ℕ, zero, suc, List, [], ◌∷◌, ◌++◌, Option, none, some, String, str_eq, ◌&&◌, if◌then◌else◌,
}
use koshi_runtime.Base.Dict.{Dict, insert}
use koshi_runtime.Inject.Patches.{
  JsonPatchOp, PatchValue, no_volumes, volume_value, container_value, no_envs, env_value,
  no_annotations, text_value,
}
use koshi_runtime.Inject.Pointer.{tokens, read_index}
use koshi_runtime.Inject.Pod.{EnvVar, Volume, Container, Pod}

-- An array takes another element, if it is there.
abbrev extended {ℓ} : {A : Type ℓ} → Option (List A) → A → Option (List A)
extended none a = none
extended (some xs) a = some (xs ++ (a ∷ []))

abbrev then_option {ℓ κ} : {A : Type ℓ} {B : Type κ} → Option A → (A → Option B) → Option B
then_option none f = none
then_option (some a) f = f a

-- The element at an index is replaced by what a step makes of it.
unfoldable pub replace_at :
    ℕ → (Container → Option Container) → List Container → Option (List Container)
replace_at i f [] = none
replace_at zero f (c ∷ cs) = then_option (f c) (λ c'. some (c' ∷ cs))
replace_at (suc i) f (c ∷ cs) = then_option (replace_at i f cs) (λ cs'. some (c ∷ cs'))

abbrev start_env : Container → Option Container
start_env c = some (record c { env = some [] })

abbrev push_env : EnvVar → Container → Option Container
push_env e c = then_option (extended c.env e) (λ es. some (record c { env = some es }))

abbrev at_containers : Pod → (List Container → Option (List Container)) → Option Pod
at_containers pod f = then_option (f pod.containers) (λ cs. some (record pod { containers = cs }))

-- An empty array, or another element behind the end of one.
unfoldable pub add_volumes : List String → PatchValue → Pod → Option Pod
add_volumes [] no_volumes pod = some (record pod { volumes = some [] })
add_volumes (t ∷ []) (volume_value v) pod =
    if str_eq t "-"
    then then_option (extended pod.volumes v) (λ vs. some (record pod { volumes = some vs }))
    else none
add_volumes _ _ pod = none

unfoldable pub add_envs : List String → PatchValue → Container → Option Container
add_envs [] no_envs c = start_env c
add_envs (t ∷ []) (env_value e) c = if str_eq t "-" then push_env e c else none
add_envs _ _ c = none

unfoldable pub add_containers : List String → PatchValue → Pod → Option Pod
unfolding add_envs replace_at
add_containers (t ∷ []) (container_value c) pod =
    if str_eq t "-" then at_containers pod (λ cs. some (cs ++ (c ∷ []))) else none
add_containers (t ∷ member ∷ ts) value pod =
    if str_eq member "env"
    then then_option (read_index t) (λ i. at_containers pod (replace_at i (add_envs ts value)))
    else none
add_containers _ _ pod = none

-- A member of an object is added or replaced.
unfoldable pub add_annotations : List String → PatchValue → Pod → Option Pod
add_annotations [] no_annotations pod = some (record pod { annotations = some [] })
add_annotations (key ∷ []) (text_value val) pod =
    then_option pod.annotations (λ m. some (record pod { annotations = some (insert key val m) }))
add_annotations _ _ pod = none

-- The members of a pod that are read here; any other place is not there.
unfoldable pub add_at : List String → PatchValue → Pod → Option Pod
unfolding add_volumes add_containers add_annotations
add_at (object ∷ member ∷ ts) value pod =
    if str_eq object "spec" && str_eq member "volumes"
    then add_volumes ts value pod
    else if str_eq object "spec" && str_eq member "containers"
    then add_containers ts value pod
    else if str_eq object "metadata" && str_eq member "annotations"
    then add_annotations ts value pod
    else none
add_at _ value pod = none

-- One operation, by its texts.
unfoldable pub apply : JsonPatchOp → Pod → Option Pod
unfolding add_at
apply p pod =
    if str_eq p.op "add" then then_option (tokens p.path) (λ ts. add_at ts p.value pod) else none

-- The operations in their order; the first that fails makes the whole patch fail.
unfoldable pub apply_all : List JsonPatchOp → Pod → Option Pod
unfolding apply
apply_all [] pod = some pod
apply_all (p ∷ ps) pod = then_option (apply p pod) (apply_all ps)
