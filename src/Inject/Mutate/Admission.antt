-- ===== src/Inject/Mutate/Admission.antt =====
-- What internal/inject/webhook.go answers for a pod.
use koshi_runtime.Json.{Text}
use mathlib.Core.Path.{subst}
use koshi_runtime.Base.{
  false, Option-cases, ◌⊎◌, ◌≢◌, ◌||◌, ◌≡◌, refl, sym, ap, ◌∙◌, true, Bool-cases, inl, inr, List,
  [], ◌∷◌, ◌++◌, Option, none, some, String, str_eq, arith,
}
use mathlib.Core.Option.{some-injective}
use koshi_runtime.Base.Result.{Result, ok, err}
use koshi_runtime.Inject.Apply.{apply_all}
use koshi_runtime.Inject.Apply.Containers.{all_with_envs}
use koshi_runtime.Inject.Apply.Injected.{injected, apply_all-build_patches}
use koshi_runtime.Inject.Mutate.{
  MutateError, handle_mutate, bad_review, no_request, marshal_failed, handle_review,
  AdmissionRequest, AdmissionResponse, Codec, admitted, has_sidecar, opted_out, admit_pod,
}
use koshi_runtime.Inject.Patches.{WebhookConfig, sidecar_name, sidecar_of, build_patches}
use koshi_runtime.Inject.Pod.{Container, Pod}

has_sidecar-append :
    (cs : List Container) (c : Container)
    → str_eq c.name sidecar_name ≡ true
    → has_sidecar (cs ++ (c ∷ [])) ≡ true
unfolding has_sidecar
has_sidecar-append [] c e = rw e refl
has_sidecar-append (x ∷ cs) c e = ground (arith, has_sidecar-append cs c e)

pub has_sidecar-injected :
    (cfg : WebhookConfig) (pod : Pod) (namespace : String)
    → has_sidecar (injected cfg pod namespace).containers ≡ true
unfolding sidecar_of
has_sidecar-injected cfg pod namespace =
    has_sidecar-append (all_with_envs cfg 0 pod.containers) (sidecar_of cfg pod namespace) refl

-- A pod that the operations of buildPatches were applied to is admitted without further
-- operations when it comes to the webhook again.
pub admit_pod_twice :
    (cfg : WebhookConfig) (codec : Codec) (req again : AdmissionRequest) (pod pod' : Pod)
    → apply_all (build_patches cfg pod req.namespace) pod ≡ some pod'
    → codec.decode_pod again.object ≡ some pod'
    → admit_pod cfg codec again (codec.decode_pod again.object) ≡ ok (admitted again none)
unfolding admit_pod
admit_pod_twice cfg codec req again pod pod' applied decoded =
    rw decoded
      (elim (Bool-cases (opted_out pod')) [ inl e ↦ rw e refl | inr e ↦ rw (e, there) refl ])
  where
    there : has_sidecar pod'.containers ≡ true
    there =
        ap (λ p. has_sidecar p.containers)
          (some-injective pod' (injected cfg pod req.namespace)
            (sym applied ∙ apply_all-build_patches cfg pod req.namespace))
        ∙ has_sidecar-injected cfg pod req.namespace

-- Why a pod stays as it is: it cannot be read, it opted out, or it has its sidecar.
abbrev pub IsLeft : Option Pod → Type 0
IsLeft none = Unit
IsLeft (some pod) = (opted_out pod || has_sidecar pod.containers) ≡ true

-- A pod that is to be changed, and the operations on it as they are sent.
abbrev pub IsPatched : WebhookConfig → Codec → String → Option Pod → Text → Type 0
IsPatched cfg codec namespace none patch = ⊥
IsPatched cfg codec namespace (some pod) patch =
    ((opted_out pod || has_sidecar pod.containers) ≡ false)
    × (codec.marshal (build_patches cfg pod namespace) ≡ some patch)

-- The response to a request about a pod.
abbrev pub Answers :
    WebhookConfig → Codec → AdmissionRequest → Option Pod → AdmissionResponse → Type 0
Answers cfg codec req pod r =
    (r.allowed ≡ true)
    × (r.uid ≡ req.uid)
    × (((r.patch ≡ none) × IsLeft pod)
        ⊎ ((patch : Text) × (r.patch ≡ some patch) × IsPatched cfg codec req.namespace pod patch))

err_not_ok :
    (e : MutateError) (r : AdmissionResponse)
    → ◌≢◌ {A = Result MutateError AdmissionResponse} (err e) (ok r)
err_not_ok e r h = cc

answers :
    (req : AdmissionRequest) (patch : Option Text) (r : AdmissionResponse)
    → ◌≡◌ {A = Result MutateError AdmissionResponse} (ok (admitted req patch)) (ok r)
    → admitted req patch ≡ r
answers req patch r e = cc

admit_pod-Answers :
    (cfg : WebhookConfig) (codec : Codec) (req : AdmissionRequest) (pod : Option Pod)
    (r : AdmissionResponse)
    → admit_pod cfg codec req pod ≡ ok r
    → Answers cfg codec req pod r
unfolding admit_pod
admit_pod-Answers cfg codec req none r e =
    subst (Answers cfg codec req none) (answers req none r e) (refl, refl, inl (refl, tt))
admit_pod-Answers cfg codec req (some pod) r e = elim (Bool-cases (opted_out pod)) [
  | inl o ↦
      subst (Answers cfg codec req (some pod)) (answers req none r (rw (admit_pod, o) at e))
        (refl, refl, inl (refl, rw o refl))
  | inr o ↦ elim (Bool-cases (has_sidecar pod.containers)) [
    | inl h ↦
        subst (Answers cfg codec req (some pod)) (answers req none r (rw (admit_pod, o, h) at e))
          (refl, refl, inl (refl, rw (o, h) refl))
    | inr h ↦ elim (Option-cases (codec.marshal (build_patches cfg pod req.namespace))) [
      | inl n ↦ absurd (err_not_ok marshal_failed r (rw (admit_pod, o, h, n) at e))
      | inr (patch, n) ↦
          subst (Answers cfg codec req (some pod))
            (answers req (some patch) r (rw (admit_pod, o, h, n) at e))
            (refl, refl, inr (patch, refl, (rw (o, h) refl, n)))
    ]
  ]
]

-- Every response of HandleMutate allows the pod and carries the UID of the request; it has no
-- patch exactly for a pod that cannot be read, that opted out, or that has the sidecar, and else
-- the patch is the encoding of the operations of buildPatches.
pub handle_mutate-Answers :
    (cfg : WebhookConfig) (codec : Codec) (body : Text) (r : AdmissionResponse)
    → handle_mutate cfg codec body ≡ ok r
    → (req : AdmissionRequest) × (codec.decode_review body ≡ some (some req))
      × Answers cfg codec req (codec.decode_pod req.object) r
unfolding handle_mutate handle_review
handle_mutate-Answers cfg codec body r e = elim (Option-cases (codec.decode_review body)) [
  | inl d ↦ absurd (err_not_ok bad_review r (rw (handle_mutate, d) at e))
  | inr (none, d) ↦ absurd (err_not_ok no_request r (rw (handle_mutate, d) at e))
  | inr (some req, d) ↦ (
    req,
    d,
    admit_pod-Answers cfg codec req (codec.decode_pod req.object) r (rw (handle_mutate, d) at e),
  )
]
