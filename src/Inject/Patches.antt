-- ===== src/Inject/Patches.antt =====
-- buildPatches of internal/inject/webhook.go.
use koshi_runtime.Base.{
  ℕ, ◌+◌, ◌-◌, ◌%◌, ◌^◌, Bool, true, false, not, ◌&&◌, List, [], ◌∷◌, ◌++◌, Option, none, some,
  String, str_eq, ◌<>◌, ltb, if◌then◌else◌,
}
use koshi_runtime.Base.Decimal.{decimal_text}
use koshi_runtime.Base.Dict.{Dict, lookup}
use koshi_runtime.Base.Int.{ℤ, pos, negsuc}
use koshi_runtime.Inject.Escape.{escape_json_pointer}
use koshi_runtime.Inject.Owner.{strip_suffix, normalize_owner}
use koshi_runtime.Inject.Pod.{EnvVar, VolumeMount, Volume, Container, Pod, elements}
use koshi_runtime.Json.{Json}

-- A map is iterated in the order of its list; the order of the two base URLs is chosen for each
-- container by its index: true has OpenAI's first.
pub record WebhookConfig : Type 0 where
  pub sidecar_image : String
  pub sidecar_pull_policy : String
  pub sidecar_port : ℕ
  pub sidecar_resources : Json
  pub config_path : String
  pub scrape_annotations : Dict String
  pub openai_first : ℕ → Bool

-- The values of the operations: an empty array or object, or what is put in.
pub data PatchValue : Type 0 where
  no_volumes : PatchValue
  volume_value : Volume → PatchValue
  container_value : Container → PatchValue
  no_envs : PatchValue
  env_value : EnvVar → PatchValue
  no_annotations : PatchValue
  text_value : String → PatchValue

-- JSONPatchOp
pub record JsonPatchOp : Type 0 where
  pub op : String
  pub path : String
  pub value : PatchValue

abbrev adding : String → PatchValue → JsonPatchOp
adding path value = record { op = "add"; path = path; value = value }

abbrev pub init_volumes : JsonPatchOp
init_volumes = adding "/spec/volumes" no_volumes

abbrev pub add_volume : Volume → JsonPatchOp
add_volume v = adding "/spec/volumes/-" (volume_value v)

abbrev pub add_container : Container → JsonPatchOp
add_container c = adding "/spec/containers/-" (container_value c)

unfoldable pub init_env : ℕ → JsonPatchOp
init_env i = adding ("/spec/containers/" <> (decimal_text i <> "/env")) no_envs

unfoldable pub add_env : ℕ → EnvVar → JsonPatchOp
add_env i e = adding ("/spec/containers/" <> (decimal_text i <> "/env/-")) (env_value e)

abbrev pub init_annotations : JsonPatchOp
init_annotations = adding "/metadata/annotations" no_annotations

unfoldable pub add_annotation : String → String → JsonPatchOp
unfolding escape_json_pointer
add_annotation key val =
    adding ("/metadata/annotations/" <> escape_json_pointer key) (text_value val)

abbrev pub annotation : Pod → String → Option String
annotation pod key = lookup key (elements pod.annotations)

abbrev trim_dash : String → String
trim_dash s = elim (strip_suffix "-" s) [ none ↦ s | some front ↦ front ]

-- The kind and the name of the workload, with the fallback for a pod that has no name yet.
unfoldable pub workload_of : Pod → String × String
unfolding normalize_owner strip_suffix
workload_of pod =
    let (kind, name) = normalize_owner pod.owners pod.labels pod.name in
    if str_eq pod.name "" && not (str_eq pod.generate_name "") && str_eq kind "Pod"
    then (kind, trim_dash pod.generate_name)
    else (kind, name)

abbrev pub pod_name_of : Pod → String
pod_name_of pod = if str_eq pod.name "" then pod.generate_name else pod.name

abbrev env_var : String → String → EnvVar
env_var name value = record { name = name; value = value }

-- Adds a variable where the annotation is there and not empty.
abbrev env_if_set : String → Option String → List EnvVar
env_if_set name none = []
env_if_set name (some v) = if str_eq v "" then [] else env_var name v ∷ []

abbrev mode_env : Option String → List EnvVar
mode_env none = []
mode_env (some m) = if str_eq m "enforcement" then env_var "KOSHI_MODE" "enforcement" ∷ [] else []

-- The name of the annotated config map, if it is not empty.
unfoldable pub config_map_of : Pod → Option String
config_map_of pod = elim (annotation pod "runtime.getkoshi.ai/configmap") [
  | none ↦ none
  | some name ↦ if str_eq name "" then none else some name
]

abbrev config_env : Option String → List EnvVar
config_env none = []
config_env (some _) = env_var "KOSHI_CONFIG_PATH" "/etc/koshi-sidecar/config.yaml" ∷ []

abbrev config_mounts : Option String → List VolumeMount
config_mounts none = []
config_mounts (some _) =
    record { name = "koshi-sidecar-config"; mount_path = "/etc/koshi-sidecar"; read_only = true }
    ∷ []

-- The variables of the sidecar, in their order.
unfoldable pub sidecar_env : WebhookConfig → Pod → String → List EnvVar
unfolding workload_of config_map_of
sidecar_env cfg pod namespace =
    let (kind, name) = workload_of pod in
    env_var "KOSHI_LISTEN_ADDR" (":" <> decimal_text cfg.sidecar_port)
    ∷ env_var "KOSHI_POD_NAMESPACE" namespace
    ∷ env_var "KOSHI_WORKLOAD_KIND" kind
    ∷ env_var "KOSHI_WORKLOAD_NAME" name
    ∷ env_var "KOSHI_POD_NAME" (pod_name_of pod)
    ∷ (mode_env (annotation pod "runtime.getkoshi.ai/mode")
        ++ (env_if_set "KOSHI_POLICY_OVERRIDE" (annotation pod "runtime.getkoshi.ai/policy")
            ++ config_env (config_map_of pod)))

-- The conversion int32(n).
abbrev int32 : ℕ → ℤ
int32 n = let w = n % 2 ^ 32 in if ltb w (2 ^ 31) then pos w else negsuc (2 ^ 32 - w - 1)

abbrev pub sidecar_name : String
sidecar_name = "koshi-listener"

unfoldable pub sidecar_of : WebhookConfig → Pod → String → Container
unfolding sidecar_env config_map_of
sidecar_of cfg pod namespace = record {
  name = sidecar_name;
  image = cfg.sidecar_image;
  pull_policy = cfg.sidecar_pull_policy;
  resources = cfg.sidecar_resources;
  ports = int32 cfg.sidecar_port ∷ [];
  env = some (sidecar_env cfg pod namespace);
  volume_mounts = config_mounts (config_map_of pod);
}

abbrev pub is_nil {ℓ} : {A : Type ℓ} → List A → Bool
is_nil [] = true
is_nil (_ ∷ _) = false

abbrev pub config_volume : String → Volume
config_volume name = record { name = "koshi-sidecar-config"; config_map = some name }

unfoldable pub volume_patches : Option String → Pod → List JsonPatchOp
volume_patches none pod = []
volume_patches (some name) pod =
    (if is_nil (elements pod.volumes) then init_volumes ∷ [] else [])
    ++ (add_volume (config_volume name) ∷ [])

unfoldable pub has_env_var : List EnvVar → String → Bool
has_env_var [] name = false
has_env_var (e ∷ es) name = if str_eq e.name name then true else has_env_var es name

abbrev pub provider_envs : Bool → ℕ → List EnvVar
provider_envs openai_first port =
    let url = "http://localhost:" <> decimal_text port in
    let openai = env_var "OPENAI_BASE_URL" url in
    let anthropic = env_var "ANTHROPIC_BASE_URL" url in
    if openai_first then openai ∷ anthropic ∷ [] else anthropic ∷ openai ∷ []

-- The inner loop, for the container at an index; the flag is needsEnvInit.
unfoldable pub env_patches : ℕ → Container → Bool → List EnvVar → List JsonPatchOp
unfolding has_env_var
env_patches i c needs_init [] = []
env_patches i c needs_init (e ∷ es) =
    if has_env_var (elements c.env) e.name
    then env_patches i c needs_init es
    else (if needs_init then init_env i ∷ [] else []) ++ (add_env i e ∷ env_patches i c false es)

-- The loop over the containers, from an index on.
unfoldable pub container_patches : WebhookConfig → ℕ → List Container → List JsonPatchOp
unfolding env_patches
container_patches cfg i [] = []
container_patches cfg i (c ∷ cs) =
    env_patches i c (is_nil (elements c.env)) (provider_envs (cfg.openai_first i) cfg.sidecar_port)
    ++ container_patches cfg (i + 1) cs

-- The value of a scrape annotation.
unfoldable pub scrape_value : ℕ → String → String → String
scrape_value port key val =
    if str_eq key "prometheus.io/scrape"
    then "true"
    else if str_eq key "prometheus.io/path"
    then "/metrics"
    else if str_eq key "prometheus.io/port"
    then decimal_text port
    else val

unfoldable pub scrape_patches : ℕ → Dict String → List JsonPatchOp
unfolding scrape_value
scrape_patches port [] = []
scrape_patches port ((key, val) ∷ rest) =
    add_annotation key (scrape_value port key val) ∷ scrape_patches port rest

abbrev pub is_none {ℓ} : {A : Type ℓ} → Option A → Bool
is_none none = true
is_none (some _) = false

unfoldable pub annotation_patches : WebhookConfig → Pod → List JsonPatchOp
unfolding scrape_patches
annotation_patches cfg pod =
    if is_nil cfg.scrape_annotations
    then []
    else (if is_none pod.annotations then init_annotations ∷ [] else [])
      ++ scrape_patches cfg.sidecar_port cfg.scrape_annotations

unfoldable pub build_patches : WebhookConfig → Pod → String → List JsonPatchOp
unfolding volume_patches config_map_of sidecar_of container_patches annotation_patches
build_patches cfg pod namespace =
    volume_patches (config_map_of pod) pod
    ++ (add_container (sidecar_of cfg pod namespace)
        ∷ (container_patches cfg 0 pod.containers ++ annotation_patches cfg pod))
