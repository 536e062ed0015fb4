-- ===== src/Inject/Apply/Injected.antt =====
-- The pod that the operations of internal/inject/webhook.go lead to.
use koshi_runtime.Base.{
  ℕ, ◌≡◌, refl, Bool-cases, inl, inr, List, [], ◌∷◌, ◌++◌, Option, none, some, String,
  if◌then◌else◌,
}
use koshi_runtime.Base.Dict.{Dict, insert}
use koshi_runtime.Inject.Apply.{
  add_volumes, add_containers, add_annotations, add_at, apply, apply_all,
}
use koshi_runtime.Inject.Patches.{
  WebhookConfig, JsonPatchOp, add_annotation, add_container, init_annotations, config_map_of,
  config_volume, volume_patches, sidecar_of, is_nil, is_none, container_patches, scrape_value,
  scrape_patches, annotation_patches, build_patches,
}
use koshi_runtime.Inject.Escape.Rounds.{unescape_from}
use koshi_runtime.Inject.Pointer.{split, behind, tokens, tokens_of_annotation}
use koshi_runtime.Inject.Pod.{Volume, Container, Pod, elements}
use koshi_runtime.Inject.Apply.Containers.{apply_all_then, all_with_envs, container_patches_apply}

-- The annotations with those of the scraping put in.
abbrev pub scraped : ℕ → Dict String → Dict String → Dict String
scraped port [] old = old
scraped port ((key, val) ∷ rest) old =
    scraped port rest (insert key (scrape_value port key val) old)

scrape_patches_apply :
    (port : ℕ) (m : Dict String) (pod : Pod) (old : Dict String)
    → apply_all (scrape_patches port m) (record pod { annotations = some old })
      ≡ some (record pod { annotations = some (scraped port m old) })
unfolding scrape_patches apply_all apply add_at add_annotations add_annotation split behind
    unescape_from
scrape_patches_apply port [] pod old = refl
scrape_patches_apply port ((key, val) ∷ rest) pod old =
    rw (apply_all, apply, tokens_of_annotation key)
      (scrape_patches_apply port rest pod (insert key (scrape_value port key val) old))

-- The volumes with that of the annotated config map.
abbrev pub with_volume : Option String → Option (List Volume) → Option (List Volume)
with_volume none vs = vs
with_volume (some name) vs = some (elements vs ++ (config_volume name ∷ []))

volume_patches_apply :
    (name : Option String) (pod : Pod) (vs : Option (List Volume))
    → apply_all (volume_patches name (record pod { volumes = vs })) (record pod { volumes = vs })
      ≡ some (record pod { volumes = with_volume name vs })
unfolding volume_patches apply_all apply add_at add_volumes tokens split behind unescape_from
volume_patches_apply none pod vs = refl
volume_patches_apply (some name) pod none = refl
volume_patches_apply (some name) pod (some []) = refl
volume_patches_apply (some name) pod (some (v ∷ vs)) = refl

-- The annotations, which are only made where there is something to add.
abbrev pub with_annotations : WebhookConfig → Option (Dict String) → Option (Dict String)
with_annotations cfg old =
    if is_nil cfg.scrape_annotations
    then old
    else some (scraped cfg.sidecar_port cfg.scrape_annotations (elements old))

annotation_patches_apply :
    (cfg : WebhookConfig) (pod : Pod) (cs : List Container) (vs : Option (List Volume))
    (old : Option (Dict String))
    → apply_all
        (annotation_patches cfg (record pod { annotations = old }))
        (record pod { containers = cs; volumes = vs; annotations = old })
      ≡ some (record pod { containers = cs; volumes = vs; annotations = with_annotations cfg old })
unfolding annotation_patches apply_all apply add_at add_annotations tokens split behind
    unescape_from
annotation_patches_apply cfg pod cs vs old = elim (Bool-cases (is_nil cfg.scrape_annotations)) [
  | inl e ↦ rw (annotation_patches, e) refl
  | inr e ↦ rw (annotation_patches, e) (go old)
]
  where
    go :
        (old : Option (Dict String))
        → apply_all
            ((if is_none old then init_annotations ∷ [] else [])
              ++ scrape_patches cfg.sidecar_port cfg.scrape_annotations)
            (record pod { containers = cs; volumes = vs; annotations = old })
          ≡ some (record pod {
            containers = cs;
            volumes = vs;
            annotations = some (scraped cfg.sidecar_port cfg.scrape_annotations (elements old));
          })
    go none =
        scrape_patches_apply cfg.sidecar_port cfg.scrape_annotations
          (record pod { containers = cs; volumes = vs }) []
    go (some m) =
        scrape_patches_apply cfg.sidecar_port cfg.scrape_annotations
          (record pod { containers = cs; volumes = vs }) m

-- The pod that the webhook means to admit.
abbrev pub injected : WebhookConfig → Pod → String → Pod
injected cfg pod namespace = record pod {
  volumes = with_volume (config_map_of pod) pod.volumes;
  containers = all_with_envs cfg 0 pod.containers ++ (sidecar_of cfg pod namespace ∷ []);
  annotations = with_annotations cfg pod.annotations;
}

-- With their paths read by RFC 6901, and applied one after the other by the rules of RFC 6902,
-- the operations of buildPatches all succeed, on every pod, and their result is the pod
-- `injected`: its volumes with that of the config map, its containers each with the base URLs
-- that it lacked, then the sidecar, and its annotations with those of the scraping.
pub apply_all-build_patches :
    (cfg : WebhookConfig) (pod : Pod) (namespace : String)
    → apply_all (build_patches cfg pod namespace) pod ≡ some (injected cfg pod namespace)
unfolding build_patches apply_all apply add_at add_containers tokens split behind unescape_from
apply_all-build_patches cfg pod namespace =
    apply_all_then (volume_patches (config_map_of pod) pod) behind pod mounted
      (injected cfg pod namespace) (volume_patches_apply (config_map_of pod) pod pod.volumes)
      (apply_all_then (container_patches cfg 0 pod.containers) (annotation_patches cfg pod)
        (record mounted { containers = pod.containers ++ (sidecar ∷ []) })
        (record mounted { containers = all_with_envs cfg 0 pod.containers ++ (sidecar ∷ []) })
        (injected cfg pod namespace)
        (container_patches_apply cfg 0 pod.containers [] (sidecar ∷ []) mounted refl)
        (annotation_patches_apply cfg pod (all_with_envs cfg 0 pod.containers ++ (sidecar ∷ []))
          mounted.volumes pod.annotations))
  where
    mounted : Pod
    mounted = record pod { volumes = with_volume (config_map_of pod) pod.volumes }

    sidecar : Container
    sidecar = sidecar_of cfg pod namespace

    behind : List JsonPatchOp
    behind =
        add_container sidecar
        ∷ (container_patches cfg 0 pod.containers ++ annotation_patches cfg pod)
