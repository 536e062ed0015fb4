-- ===== src/Inject/Apply/Containers.antt =====
-- The loop over the containers of internal/inject/webhook.go, applied to a pod.
use koshi_runtime.Base.{
  ℕ, ◌+◌, ◌≡◌, refl, sym, ap, ◌∙◌, false, Bool-cases, Option-cases, inl, inr, List, [], ◌∷◌, ◌++◌,
  Option, none, some, if◌then◌else◌, length, length-append, arith,
}
use mathlib.Core.List.{append_assoc, append-nil}
use koshi_runtime.Inject.Apply.{
  then_option, replace_at, start_env, push_env, add_envs, add_containers, add_at, apply, apply_all,
}
use koshi_runtime.Inject.Patches.{
  WebhookConfig, JsonPatchOp, init_env, add_env, has_env_var, provider_envs, is_nil, env_patches,
  container_patches,
}
use koshi_runtime.Inject.Escape.Rounds.{unescape_from}
use koshi_runtime.Inject.Pointer.{split, behind, tokens_in_container, read_index-decimal_text}
use koshi_runtime.Inject.Pod.{EnvVar, Container, Pod, elements}

apply_all-append :
    (ps qs : List JsonPatchOp) (pod : Pod)
    → apply_all (ps ++ qs) pod ≡ then_option (apply_all ps pod) (apply_all qs)
unfolding apply_all
apply_all-append [] qs pod = refl
apply_all-append (p ∷ ps) qs pod = elim (Option-cases (apply p pod)) [
  | inl e ↦ rw (apply_all, e) refl
  | inr (pod', e) ↦ rw (apply_all, e) (apply_all-append ps qs pod')
]

-- One list of operations after another.
pub apply_all_then :
    (ps qs : List JsonPatchOp) (pod pod' pod'' : Pod)
    → apply_all ps pod ≡ some pod'
    → apply_all qs pod' ≡ some pod''
    → apply_all (ps ++ qs) pod ≡ some pod''
apply_all_then ps qs pod pod' pod'' e e' =
    apply_all-append ps qs pod ∙ ap (λ o. then_option o (apply_all qs)) e ∙ e'

-- The variables of a container that has some of these already.
abbrev pub missing : List EnvVar → List EnvVar → List EnvVar
missing own [] = []
missing own (e ∷ es) = if has_env_var own e.name then missing own es else e ∷ missing own es

-- A container with the variables that it lacked, behind its own.
abbrev pub with_envs : List EnvVar → Container → Container
with_envs es c =
    if is_nil (missing (elements c.env) es)
    then c
    else record c { env = some (elements c.env ++ missing (elements c.env) es) }

replace-at-length :
    (f : Container → Option Container) (before after : List Container) (c c' : Container)
    → f c ≡ some c'
    → replace_at (length before) f (before ++ (c ∷ after)) ≡ some (before ++ (c' ∷ after))
unfolding replace_at
replace-at-length f [] after c c' e = rw e refl
replace-at-length f (b ∷ before) after c c' e = rw (replace-at-length f before after c c' e) refl

-- A pod with these containers before and after one.
abbrev around : Pod → List Container → Container → List Container → Pod
around pod before c after = record pod { containers = before ++ (c ∷ after) }

apply-add_env :
    (e : EnvVar) (xs : List EnvVar) (c : Container) (pod : Pod) (before after : List Container)
    → apply (add_env (length before) e) (around pod before (record c { env = some xs }) after)
      ≡ some (around pod before (record c { env = some (xs ++ (e ∷ [])) }) after)
unfolding apply add_at add_containers add_envs add_env split behind unescape_from
apply-add_env e xs c pod before after =
    rw
      (
        apply,
        tokens_in_container (length before) "/env/-" ("env" ∷ "-" ∷ []) refl,
        read_index-decimal_text (length before),
      )
      (ap (λ o. then_option o (λ cs. some (record pod { containers = cs })))
        (replace-at-length (push_env e) before after (record c { env = some xs })
          (record c { env = some (xs ++ (e ∷ [])) }) refl))

apply-init_env :
    (c : Container) (pod : Pod) (before after : List Container)
    → apply (init_env (length before)) (around pod before c after)
      ≡ some (around pod before (record c { env = some [] }) after)
unfolding apply add_at add_containers add_envs init_env split behind unescape_from
apply-init_env c pod before after =
    rw
      (
        apply,
        tokens_in_container (length before) "/env" ("env" ∷ []) refl,
        read_index-decimal_text (length before),
      )
      (ap (λ o. then_option o (λ cs. some (record pod { containers = cs })))
        (replace-at-length start_env before after c (record c { env = some [] }) refl))

-- The inner loop once the container has an array: what is missing goes behind it.
env_patches_later :
    (es xs : List EnvVar) (c : Container) (pod : Pod) (before after : List Container)
    → apply_all
        (env_patches (length before) c false es)
        (around pod before (record c { env = some xs }) after)
      ≡ some (around pod before (record c { env = some (xs ++ missing (elements c.env) es) }) after)
unfolding env_patches apply_all
env_patches_later [] xs c pod before after =
    ap (λ ys. some (around pod before (record c { env = some ys }) after)) (sym (append-nil xs))
env_patches_later (e ∷ es) xs c pod before after =
    elim (Bool-cases (has_env_var (elements c.env) e.name)) [
      | inl h ↦ rw (h, env_patches) (env_patches_later es xs c pod before after)
      | inr h ↦
          rw (h, env_patches, apply_all, apply-add_env e xs c pod before after)
            (env_patches_later es (xs ++ (e ∷ [])) c pod before after
              ∙ ap (λ ys. some (around pod before (record c { env = some ys }) after))
                  (append_assoc xs (e ∷ []) (missing (elements c.env) es)))
    ]

-- The first variable that is missing, with the array that it may need.
first_missing :
    (own : Option (List EnvVar)) (e : EnvVar) (es : List EnvVar) (k : Container) (pod : Pod)
    (before after : List Container)
    → let c : Container = record k { env = own } in
      let i = length before in
      apply_all
        ((if is_nil (elements own) then init_env i ∷ [] else [])
          ++ (add_env i e ∷ env_patches i c false es))
        (around pod before c after)
      ≡ some (
          around pod before
            (record k { env = some (elements own ++ (e ∷ missing (elements own) es)) })
            after)
unfolding apply_all
first_missing none e es k pod before after =
    rw
      (
        apply-init_env (record k { env = none }) pod before after,
        apply-add_env e [] k pod before after,
      )
      (env_patches_later es (e ∷ []) (record k { env = none }) pod before after)
first_missing (some []) e es k pod before after =
    rw
      (
        apply-init_env (record k { env = some [] }) pod before after,
        apply-add_env e [] k pod before after,
      )
      (env_patches_later es (e ∷ []) (record k { env = some [] }) pod before after)
first_missing (some (x ∷ xs)) e es k pod before after =
    rw (apply-add_env e (x ∷ xs) k pod before after) (
      env_patches_later es (x ∷ (xs ++ (e ∷ []))) (record k { env = some (x ∷ xs) }) pod before
        after
      ∙ ap (λ ys. some (around pod before (record k { env = some (x ∷ ys) }) after))
          (append_assoc xs (e ∷ []) (missing (x ∷ xs) es)))

-- The inner loop as it is entered.
env_patches_first :
    (es : List EnvVar) (c : Container) (pod : Pod) (before after : List Container)
    → apply_all
        (env_patches (length before) c (is_nil (elements c.env)) es)
        (around pod before c after)
      ≡ some (around pod before (with_envs es c) after)
unfolding env_patches apply_all
env_patches_first [] c pod before after = refl
env_patches_first (e ∷ es) c pod before after =
    elim (Bool-cases (has_env_var (elements c.env) e.name)) [
      | inl h ↦ rw (h, env_patches) (env_patches_first es c pod before after)
      | inr h ↦ rw (h, env_patches) (first_missing c.env e es c pod before after)
    ]

-- Every container, by its index, with the variables that it lacked.
abbrev pub all_with_envs : WebhookConfig → ℕ → List Container → List Container
all_with_envs cfg i [] = []
all_with_envs cfg i (c ∷ cs) =
    with_envs (provider_envs (cfg.openai_first i) cfg.sidecar_port) c ∷ all_with_envs cfg (i + 1) cs

pub container_patches_apply :
    (cfg : WebhookConfig) (i : ℕ) (cs before after : List Container) (pod : Pod)
    → i ≡ length before
    → apply_all (container_patches cfg i cs) (record pod { containers = before ++ (cs ++ after) })
      ≡ some (record pod { containers = before ++ (all_with_envs cfg i cs ++ after) })
unfolding container_patches apply_all
container_patches_apply cfg i [] before after pod at = refl
container_patches_apply cfg i (c ∷ cs) before after pod at =
    apply_all_then here (container_patches cfg (i + 1) cs) (around pod before c (cs ++ after))
      (around pod before c' (cs ++ after))
      (around pod before c' (all_with_envs cfg (i + 1) cs ++ after))
      (ap
          (λ j.
            apply_all (env_patches j c (is_nil (elements c.env)) envs)
              (around pod before c (cs ++ after)))
          at
        ∙ env_patches_first envs c pod before (cs ++ after))
      (ap (λ xs. apply_all (container_patches cfg (i + 1) cs) (record pod { containers = xs }))
          (sym (append_assoc before (c' ∷ []) (cs ++ after)))
        ∙ container_patches_apply cfg (i + 1) cs (before ++ (c' ∷ [])) after pod
            (omega (arith, length-append before (c' ∷ []), at))
        ∙ ap (λ xs. some (record pod { containers = xs }))
            (append_assoc before (c' ∷ []) (all_with_envs cfg (i + 1) cs ++ after)))
  where
    envs : List EnvVar
    envs = provider_envs (cfg.openai_first i) cfg.sidecar_port

    here : List JsonPatchOp
    here = env_patches i c (is_nil (elements c.env)) envs

    c' : Container
    c' = with_envs envs c
