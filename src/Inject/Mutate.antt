-- ===== src/Inject/Mutate.antt =====
-- HandleMutate and ServeWebhook of internal/inject/webhook.go, with MarshalPatches of patch.go.
-- The decoding of a review and of a pod and the encoding of the operations are parameters.
pub mod Admission
use koshi_runtime.Base.{
  ℕ, Bool, true, false, ◌||◌, List, [], ◌∷◌, Option, none, some, String, str_eq, if◌then◌else◌,
}
use koshi_runtime.Base.Dict.{lookup}
use koshi_runtime.Base.Result.{Result, ok, err}
use koshi_runtime.Inject.Patches.{WebhookConfig, JsonPatchOp, sidecar_name, build_patches}
use koshi_runtime.Inject.Pod.{Container, Pod, elements}
use koshi_runtime.Json.{Text}

-- admissionv1.AdmissionRequest, with the raw object.
pub record AdmissionRequest : Type 0 where
  pub uid : String
  pub namespace : String
  pub object : Text

-- admissionv1.AdmissionResponse; a patch comes with the type JSONPatch.
pub record AdmissionResponse : Type 0 where
  pub uid : String
  pub allowed : Bool
  pub patch : Option Text

pub data MutateError : Type 0 where
  bad_review no_request marshal_failed : MutateError

-- Where a review has no request its decoding gives `some none`.
pub record Codec : Type 0 where
  pub decode_review : Text → Option (Option AdmissionRequest)
  pub decode_pod : Text → Option Pod
  pub marshal : List JsonPatchOp → Option Text

abbrev pub admitted : AdmissionRequest → Option Text → AdmissionResponse
admitted req patch = record { uid = req.uid; allowed = true; patch = patch }

unfoldable pub has_sidecar : List Container → Bool
has_sidecar [] = false
has_sidecar (c ∷ cs) = if str_eq c.name sidecar_name then true else has_sidecar cs

abbrev pub opted_out : Pod → Bool
opted_out pod = elim (lookup "runtime.getkoshi.ai/inject" (elements pod.annotations)) [
  | none ↦ false
  | some v ↦ str_eq v "false"
]

abbrev with_patch : AdmissionRequest → Option Text → Result MutateError AdmissionResponse
with_patch req none = err marshal_failed
with_patch req (some patch) = ok (admitted req (some patch))

unfoldable pub admit_pod :
    WebhookConfig → Codec → AdmissionRequest → Option Pod → Result MutateError AdmissionResponse
unfolding has_sidecar build_patches
admit_pod cfg codec req none = ok (admitted req none)
admit_pod cfg codec req (some pod) =
    if opted_out pod
    then ok (admitted req none)
    else if has_sidecar pod.containers
    then ok (admitted req none)
    else with_patch req (codec.marshal (build_patches cfg pod req.namespace))

unfoldable pub handle_review :
    WebhookConfig → Codec → Option (Option AdmissionRequest) → Result MutateError AdmissionResponse
unfolding admit_pod
handle_review cfg codec none = err bad_review
handle_review cfg codec (some none) = err no_request
handle_review cfg codec (some (some req)) = admit_pod cfg codec req (codec.decode_pod req.object)

unfoldable pub handle_mutate : WebhookConfig → Codec → Text → Result MutateError AdmissionResponse
unfolding handle_review
handle_mutate cfg codec body = handle_review cfg codec (codec.decode_review body)

-- The status of the answer, with the review's response or the text of an error.
pub data WebhookAnswer : Type 0 where
  review : ℕ → AdmissionResponse → WebhookAnswer
  failed : ℕ → Option MutateError → WebhookAnswer

abbrev answer_of : Result MutateError AdmissionResponse → WebhookAnswer
answer_of (ok r) = review 200 r
answer_of (err e) = failed 500 (some e)

-- The body of the request is `none` where reading it fails.
unfoldable pub serve_webhook : WebhookConfig → Codec → Option Text → WebhookAnswer
unfolding handle_mutate
serve_webhook cfg codec none = failed 400 none
serve_webhook cfg codec (some body) = answer_of (handle_mutate cfg codec body)
