-- ===== src/Inject/Tests.antt =====
-- The webhook of internal/inject on one pod of a deployment.
use text.Mathlib.TextLemmas.{cons≢nil}
use koshi_runtime.Base.{◌≡◌, ◌≢◌, refl, true, [], ◌∷◌, some, none, String}
use koshi_runtime.Base.Dict.{Dict, lookup}
use koshi_runtime.Base.Result.{ok}
use koshi_runtime.Inject.Apply.{apply_all}
use koshi_runtime.Inject.Apply.Injected.{injected, apply_all-build_patches}
use koshi_runtime.Inject.Escape.{escape_json_pointer}
use koshi_runtime.Inject.Escape.Rounds.{
  unescape_json_pointer, HasNoSlash, unescape-escape_json_pointer,
}
use koshi_runtime.Inject.Mutate.{
  AdmissionRequest, Codec, admitted, has_sidecar, admit_pod, handle_review, handle_mutate,
}
use koshi_runtime.Inject.Mutate.Admission.{Answers, admit_pod_twice, handle_mutate-Answers}
use koshi_runtime.Inject.Patches.{WebhookConfig, build_patches}
use koshi_runtime.Inject.Pod.{Container, Pod}
use koshi_runtime.Json.{null}

abbrev webhook : WebhookConfig
webhook = record {
  sidecar_image = "koshi:latest";
  sidecar_pull_policy = "IfNotPresent";
  sidecar_port = 15080;
  sidecar_resources = null;
  config_path = "/etc/koshi";
  scrape_annotations = ("prometheus.io/scrape", "true") ∷ ("prometheus.io/port", "15080") ∷ [];
  openai_first = λ _. true;
}

abbrev app : Container
app = record {
  name = "app";
  image = "shop:2";
  pull_policy = "";
  resources = null;
  ports = [];
  env = some (record { name = "OPENAI_BASE_URL"; value = "http://proxy" } ∷ []);
  volume_mounts = [];
}

abbrev labels : Dict String
labels = ("pod-template-hash", "5f7") ∷ []

abbrev pod : Pod
pod = record {
  name = "";
  generate_name = "shop-5f7-";
  owners = record { kind = "ReplicaSet"; name = "shop-5f7" } ∷ [];
  labels = labels;
  annotations = none;
  volumes = none;
  containers = app ∷ [];
}

abbrev request : AdmissionRequest
request = record { uid = "1"; namespace = "prod"; object = [] }

abbrev codec : Pod → Codec
codec p = record {
  decode_review = λ _. some (some request);
  decode_pod = λ _. some p;
  marshal = λ _. some [];
}

apply_all-build_patches_example :
    apply_all (build_patches webhook pod "prod") pod ≡ some (injected webhook pod "prod")
apply_all-build_patches_example = apply_all-build_patches webhook pod "prod"

admit_pod_twice_example :
    admit_pod webhook
      (codec (injected webhook pod "prod"))
      request
      (some (injected webhook pod "prod"))
    ≡ ok (admitted request none)
admit_pod_twice_example =
    admit_pod_twice webhook (codec (injected webhook pod "prod")) request request pod
      (injected webhook pod "prod") (apply_all-build_patches webhook pod "prod") refl

patched : handle_mutate webhook (codec pod) [] ≡ ok (admitted request (some []))
unfolding handle_mutate handle_review admit_pod has_sidecar lookup
patched = refl

handle_mutate-Answers_example :
    (req : AdmissionRequest) × ((codec pod).decode_review [] ≡ some (some req))
    × Answers webhook
        (codec pod)
        req
        ((codec pod).decode_pod req.object)
        (admitted request (some []))
handle_mutate-Answers_example =
    handle_mutate-Answers webhook (codec pod) [] (admitted request (some [])) patched

unescape-escape_json_pointer_example :
    (unescape_json_pointer (escape_json_pointer "prometheus.io/port~") ≡ "prometheus.io/port~")
    × HasNoSlash (escape_json_pointer "prometheus.io/port~")
unescape-escape_json_pointer_example = unescape-escape_json_pointer "prometheus.io/port~"

hashed : ◌≢◌ {A = String} "5f7" ""
hashed e = cons≢nil e

labelled : lookup "pod-template-hash" labels ≡ some "5f7"
unfolding lookup
labelled = refl
