-- ===== src/Inject/Apply/Environment.antt =====
-- The variables of the containers that internal/inject/webhook.go changes.
use koshi_runtime.Base.{
  ℕ, zero, suc, ◌+◌, ◌≡◌, refl, sym, ◌∙◌, Bool, true, false, Bool-cases, inl, inr, List, [], ◌∷◌,
  ◌++◌, some, String, eq_iff, get_elem?, arith, ◌||◌,
}
use mathlib.Core.List.{append-nil}
use mathlib.Core.Option.{some-injective, none-ne-some}
use koshi_runtime.Inject.Apply.{apply_all}
use koshi_runtime.Inject.Apply.Containers.{missing, with_envs, all_with_envs}
use koshi_runtime.Inject.Apply.Injected.{injected, apply_all-build_patches}
use koshi_runtime.Inject.Patches.{WebhookConfig, has_env_var, provider_envs, is_nil, build_patches}
use koshi_runtime.Inject.Pod.{EnvVar, Container, Pod, elements}

has_env_var-append :
    (xs ys : List EnvVar) (n : String)
    → has_env_var (xs ++ ys) n ≡ (has_env_var xs n || has_env_var ys n)
unfolding has_env_var
has_env_var-append [] ys n = refl
has_env_var-append (x ∷ xs) ys n = ground (arith, has_env_var-append xs ys n)

missing-has :
    (own es : List EnvVar) (n : String)
    → has_env_var own n ≡ false
    → has_env_var es n ≡ true
    → has_env_var (missing own es) n ≡ true
unfolding has_env_var
missing-has own [] n lacks h = h
missing-has own (e ∷ es) n lacks h = ground (arith, missing-has own es n lacks, eq_iff e.name n)

empty_of : (xs : List EnvVar) → is_nil xs ≡ true → xs ≡ []
empty_of [] e = refl
empty_of (x ∷ xs) e = cc

with_envs-env :
    (es : List EnvVar) (c : Container)
    → elements (with_envs es c).env ≡ elements c.env ++ missing (elements c.env) es
with_envs-env es c = elim (Bool-cases (is_nil (missing (elements c.env) es))) [
  | inl e ↦ rw (e, empty_of (missing (elements c.env) es) e) (sym (append-nil (elements c.env)))
  | inr e ↦ rw e refl
]

with_envs-has :
    (es : List EnvVar) (c : Container) (n : String)
    → has_env_var es n ≡ true
    → has_env_var (elements (with_envs es c).env) n ≡ true
with_envs-has es c n h =
    rw (with_envs-env es c, has_env_var-append (elements c.env) (missing (elements c.env) es) n)
      (elim (Bool-cases (has_env_var (elements c.env) n)) [
        | inl own ↦ rw own refl
        | inr lacks ↦ rw (lacks, missing-has (elements c.env) es n lacks h) refl
      ])

-- A container that a client of the sidecar can use: its own variables first, and a base URL for
-- each of the providers.
pub record IsServed (c c' : Container) : Type 0 where
  pub added : List EnvVar
  pub kept : elements c'.env ≡ elements c.env ++ added
  pub same_name : c'.name ≡ c.name
  pub openai : has_env_var (elements c'.env) "OPENAI_BASE_URL" ≡ true
  pub anthropic : has_env_var (elements c'.env) "ANTHROPIC_BASE_URL" ≡ true

with_envs-name : (es : List EnvVar) (c : Container) → (with_envs es c).name ≡ c.name
with_envs-name es c = elim (Bool-cases (is_nil (missing (elements c.env) es))) [
  | inl e ↦ rw e refl
  | inr e ↦ rw e refl
]

with_envs-IsServed :
    (b : Bool) (port : ℕ) (c : Container) → IsServed c (with_envs (provider_envs b port) c)
unfolding has_env_var
with_envs-IsServed b port c = record {
  added = missing (elements c.env) (provider_envs b port);
  kept = with_envs-env (provider_envs b port) c;
  same_name = with_envs-name (provider_envs b port) c;
  openai = with_envs-has (provider_envs b port) c "OPENAI_BASE_URL" (openai_in b);
  anthropic = with_envs-has (provider_envs b port) c "ANTHROPIC_BASE_URL" (anthropic_in b);
}
  where
    openai_in : (b : Bool) → has_env_var (provider_envs b port) "OPENAI_BASE_URL" ≡ true
    openai_in true = refl
    openai_in false = refl

    anthropic_in : (b : Bool) → has_env_var (provider_envs b port) "ANTHROPIC_BASE_URL" ≡ true
    anthropic_in true = refl
    anthropic_in false = refl

all_with_envs-IsServed :
    (cfg : WebhookConfig) (k : ℕ) (cs behind : List Container) (i : ℕ) (c : Container)
    → get_elem? cs i ≡ some c
    → (c' : Container) × (get_elem? (all_with_envs cfg k cs ++ behind) i ≡ some c') × IsServed c c'
all_with_envs-IsServed cfg k [] behind i c e = absurd (none-ne-some c e)
all_with_envs-IsServed cfg k (x ∷ cs) behind zero c e = (
  with_envs (provider_envs (cfg.openai_first k) cfg.sidecar_port) x,
  refl,
  rw (some-injective x c e) (with_envs-IsServed (cfg.openai_first k) cfg.sidecar_port c),
)
all_with_envs-IsServed cfg k (x ∷ cs) behind (suc i) c e =
    all_with_envs-IsServed cfg (k + 1) cs behind i c e

-- In the pod that the operations of buildPatches lead to, each container keeps its place, its
-- name and its variables in front, and has a base URL for OpenAI and for Anthropic.
build_patches-IsServed :
    (cfg : WebhookConfig) (pod pod' : Pod) (namespace : String) (i : ℕ) (c : Container)
    → apply_all (build_patches cfg pod namespace) pod ≡ some pod'
    → get_elem? pod.containers i ≡ some c
    → (c' : Container) × (get_elem? pod'.containers i ≡ some c') × IsServed c c'
build_patches-IsServed cfg pod pod' namespace i c applied at =
    rw
      (sym (
        some-injective (injected cfg pod namespace) pod'
          (sym (apply_all-build_patches cfg pod namespace) ∙ applied)))
      (all_with_envs-IsServed cfg 0 pod.containers _ i c at)
