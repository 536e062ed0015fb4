-- ===== src/Inject/Pod.antt =====
-- The objects of Kubernetes that internal/inject reads and writes, by the fields that it uses.
-- A slice or a map that is nil is `none`: the document has no such array or object.
use koshi_runtime.Base.Int.{ℤ}
use koshi_runtime.Base.{Bool, List, [], Option, none, some, String}
use koshi_runtime.Base.Dict.{Dict}
use koshi_runtime.Inject.Owner.{OwnerReference}
use koshi_runtime.Json.{Json}

pub record EnvVar : Type 0 where
  pub name : String
  pub value : String

pub record VolumeMount : Type 0 where
  pub name : String
  pub mount_path : String
  pub read_only : Bool

-- A volume that a config map backs has its name; of another only its own name is kept.
pub record Volume : Type 0 where
  pub name : String
  pub config_map : Option String

pub record Container : Type 0 where
  pub name : String
  pub image : String
  pub pull_policy : String
  pub resources : Json
  pub ports : List ℤ
  pub env : Option (List EnvVar)
  pub volume_mounts : List VolumeMount

pub record Pod : Type 0 where
  pub name : String
  pub generate_name : String
  pub owners : List OwnerReference
  pub labels : Dict String
  pub annotations : Option (Dict String)
  pub volumes : Option (List Volume)
  pub containers : List Container

-- A nil slice or map reads as an empty one.
abbrev pub elements {ℓ} : {A : Type ℓ} → Option (List A) → List A
elements none = []
elements (some xs) = xs
