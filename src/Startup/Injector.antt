-- ===== src/Startup/Injector.antt =====
-- cmd/koshi/injector.go with internal/inject/tls.go: the configuration of the webhook from the
-- environment, its endpoints, and its certificates.
-- The decoding of the sidecar's resources is a parameter; a text that is not decoded leaves the
-- value that the decoder leaves.
mod Ports
use Prim.Native.Char.{Char, code}
use Prim.Native.String.{[], ◌∷◌}
use koshi_runtime.Base.{
  ℕ, zero, suc, ◌+◌, ◌-◌, ◌*◌, ◌^◌, Bool, true, ◌&&◌, ◌==◌, Option, none, some, String, str_eq, ltb,
  leb, if◌then◌else◌, List,
}
use koshi_runtime.Base.Dict.{Dict}
use koshi_runtime.Base.Int.{ℤ, pos, negsuc}
use koshi_runtime.Base.Result.{Result, ok, err, ◌>>=◌}
use koshi_runtime.Inject.Patches.{WebhookConfig}
use koshi_runtime.Json.{Json}

-- The digits of a text behind those that make up `n`.
unfoldable pub digits_from : ℕ → String → Option ℕ
digits_from n [] = some n
digits_from n (c ∷ s) =
    let rest = digits_from (10 * n + (code c - b'0')) s in
    if leb b'0' (code c) && leb (code c) b'9' then rest else none

unfoldable pub digits : String → Option ℕ
unfolding digits_from
digits [] = none
digits (c ∷ s) = digits_from 0 (c ∷ s)

abbrev bounded : Option ℕ → Option ℤ
bounded none = none
bounded (some n) = if ltb n (2 ^ 63) then some (pos n) else none

abbrev negated : Option ℕ → Option ℤ
negated none = none
negated (some zero) = some (pos 0)
negated (some (suc n)) = if ltb n (2 ^ 63) then some (negsuc n) else none

-- strconv.Atoi; `none` is an error.
unfoldable pub atoi : String → Option ℤ
unfolding digits
atoi [] = none
atoi (c ∷ s) =
    if code c == b'-'
    then negated (digits s)
    else if code c == b'+'
    then bounded (digits s)
    else bounded (digits (c ∷ s))

-- The port, where the text is a positive number.
abbrev port_of : Option ℤ → ℕ
port_of none = 15080
port_of (some (negsuc n)) = 15080
port_of (some (pos n)) = if ltb 0 n then n else 15080

unfoldable pub sidecar_port : String → ℕ
unfolding atoi
sidecar_port text = if str_eq text "" then 15080 else port_of (atoi text)

abbrev or_default : String → String → String
or_default text default = if str_eq text "" then default else text

abbrev scrape : Dict String
scrape =
    List.◌∷◌ ("prometheus.io/scrape", "true")
      (List.◌∷◌ ("prometheus.io/port", "15080")
        (List.◌∷◌ ("prometheus.io/path", "/metrics") List.[]))

unfoldable pub webhook_config :
    (String → String) → (String → Json) → Json → (ℕ → Bool) → WebhookConfig
unfolding sidecar_port
webhook_config getenv decode_resources no_limits openai_first = record {
  sidecar_image = or_default (getenv "KOSHI_INJECT_IMAGE") "koshi:latest";
  sidecar_pull_policy = or_default (getenv "KOSHI_SIDECAR_PULL_POLICY") "IfNotPresent";
  sidecar_port = sidecar_port (getenv "KOSHI_SIDECAR_PORT");
  sidecar_resources =
      (let text = getenv "KOSHI_SIDECAR_RESOURCES" in
        if str_eq text "" then no_limits else decode_resources text);
  config_path = "/etc/koshi";
  scrape_annotations = scrape;
  openai_first = openai_first;
}

-- The paths of the certificate and of its key.
unfoldable pub tls_paths : (String → String) → String × String
tls_paths getenv = (
  or_default (getenv "KOSHI_TLS_CERT") "/etc/koshi-tls/tls.crt",
  or_default (getenv "KOSHI_TLS_KEY") "/etc/koshi-tls/tls.key",
)

-- tls.Config, by the fields that are set.
pub record TlsConfig (Certificate : Type 0) : Type 0 where
  pub certificates : List Certificate
  pub min_version : String

-- LoadTLSConfig of internal/inject/tls.go, where the loading of a pair is a parameter.
unfoldable pub load_tls_config :
    {Certificate : Type 0}
    → (String → String → Result String Certificate)
    → String
    → String
    → Result String (TlsConfig Certificate)
load_tls_config load_pair cert_path key_path = do
  cert ← load_pair cert_path key_path
  ok (record { certificates = List.◌∷◌ cert List.[]; min_version = "1.2" })

-- The patterns of the mux of the injector, none of which is a prefix.
pub data Endpoint : Type 0 where
  mutate health ready not_found : Endpoint

unfoldable pub endpoint_of : String → Endpoint
endpoint_of path =
    if str_eq path "/mutate"
    then Endpoint.mutate
    else if str_eq path "/healthz"
    then Endpoint.health
    else if str_eq path "/readyz"
    then Endpoint.ready
    else Endpoint.not_found

-- The answers of the two probes; the others have none here.
unfoldable pub probe : Endpoint → Option (ℕ × String)
probe Endpoint.health = some (200, "ok")
probe Endpoint.ready = some (200, "ready")
probe Endpoint.mutate = none
probe Endpoint.not_found = none

-- The server, whose mux is `endpoint_of`; the timeout of reading a header is left out.
pub record Server (Certificate : Type 0) : Type 0 where
  pub addr : String
  pub tls : TlsConfig Certificate
  pub webhook : WebhookConfig

abbrev exit_status {ℓ} : {A : Type ℓ} → Result String A → Result ℕ A
exit_status (ok a) = ok a
exit_status (err e) = err 1

-- runInjector up to its server, or the status that the process exits with.
unfoldable pub run_injector :
    {Certificate : Type 0}
    → (String → String → Result String Certificate)
    → (String → String)
    → (String → Json)
    → Json
    → (ℕ → Bool)
    → Result ℕ (Server Certificate)
unfolding webhook_config load_tls_config tls_paths
run_injector load_pair getenv decode_resources no_limits openai_first = do
  tls ← exit_status (load_tls_config load_pair (tls_paths getenv).0 (tls_paths getenv).1)
  ok (record {
    addr = ":8443";
    tls = tls;
    webhook = webhook_config getenv decode_resources no_limits openai_first;
  })
