-- ===== src/Identity.antt =====
-- internal/identity: resolver.go and pod_resolver.go.
-- A request's header is the function of http.Header.Get; the environment is a function too.
use Prim.Native.Char.{code}
use Prim.Native.String.{◌++◌}
use koshi_runtime.Base.{
  ℕ, Bool, ◌&&◌, ◌||◌, ◌==◌, leb, Option, none, some, String, str_eq, if◌then◌else◌,
}

pub record WorkloadIdentity : Type 0 where
  pub workload_id : String
  pub namespace : String
  pub workload_kind : String
  pub workload_name : String

abbrev pub no_identity : WorkloadIdentity
no_identity = record { workload_id = ""; namespace = ""; workload_kind = ""; workload_name = "" }

-- The white space of strings.TrimSpace, by code point.
abbrev pub is_space : ℕ → Bool
is_space c =
    leb 9 c && leb c 13
    || c == 32
    || c == 0x85
    || c == 0xa0
    || c == 0x1680
    || leb 0x2000 c && leb c 0x200a
    || c == 0x2028
    || c == 0x2029
    || c == 0x202f
    || c == 0x205f
    || c == 0x3000

unfoldable pub trim_left : String → String
trim_left String.[] = String.[]
trim_left (String.◌∷◌ c s) = if is_space (code c) then trim_left s else String.◌∷◌ c s

-- Puts a character in front of text that is trimmed already.
unfoldable pub cons_trimmed : Bool → (s : String) → String → String
cons_trimmed space String.[] t = if space then String.[] else t
cons_trimmed space (String.◌∷◌ d r) t = t

unfoldable pub trim_right : String → String
unfolding cons_trimmed
trim_right String.[] = String.[]
trim_right (String.◌∷◌ c s) =
    let r = trim_right s in cons_trimmed (is_space (code c)) r (String.◌∷◌ c r)

-- strings.TrimSpace
unfoldable pub trim_space : String → String
unfolding trim_left trim_right
trim_space s = trim_right (trim_left s)

-- What a resolver reads of the request.
pub record Request : Type 0 where
  pub header : String → String

pub record PodResolver : Type 0 where
  pub namespace : String
  pub workload_kind : String
  pub workload_name : String
  pub pod_name : String

unfoldable pub new_pod_resolver : (String → String) → PodResolver
unfolding trim_space
new_pod_resolver getenv = record {
  namespace = trim_space (getenv "KOSHI_POD_NAMESPACE");
  workload_kind = trim_space (getenv "KOSHI_WORKLOAD_KIND");
  workload_name = trim_space (getenv "KOSHI_WORKLOAD_NAME");
  pod_name = trim_space (getenv "KOSHI_POD_NAME");
}

-- fmt.Sprintf("%s/%s/%s", …)
abbrev pub workload_path : String → String → String → String
workload_path ns kind name = ns ++ ("/" ++ (kind ++ ("/" ++ name)))

abbrev pod_identity : String → String → String → WorkloadIdentity
pod_identity ns kind name = record {
  workload_id = workload_path ns kind name;
  namespace = ns;
  workload_kind = kind;
  workload_name = name;
}

-- PodResolver.Resolve: `none` is ErrMissingIdentity.
unfoldable pub resolve_pod : PodResolver → Option WorkloadIdentity
resolve_pod r =
    if str_eq r.namespace ""
    then none
    else (if str_eq r.workload_kind "" || str_eq r.workload_name ""
        then (if str_eq r.pod_name ""
            then none
            else some (pod_identity r.namespace "Pod" r.pod_name))
        else some (pod_identity r.namespace r.workload_kind r.workload_name))

-- HeaderResolver.Resolve
unfoldable pub resolve_header : String → Request → Option WorkloadIdentity
unfolding trim_space
resolve_header key r =
    let val = trim_space (r.header key) in
    if str_eq val "" then none else some (record no_identity { workload_id = val })

-- The implementations of the interface Resolver.
pub data Resolver : Type 0 where
  by_header : String → Resolver
  by_pod : PodResolver → Resolver

unfoldable pub resolve : Resolver → Request → Option WorkloadIdentity
unfolding resolve_header resolve_pod
resolve (by_header key) r = resolve_header key r
resolve (by_pod p) r = resolve_pod p
