-- ===== src/Certgen.antt =====
-- internal/certgen/certgen.go: the certificates of the webhook, the secret that keeps them, and the
-- bundle of the webhook's configuration. The cluster and the cryptography are parameters.
pub mod Phases
mod Tests
use koshi_runtime.Base.{
  ℕ, ◌+◌, ◌-◌, ◌*◌, Bool, true, false, ◌||◌, List, [], ◌∷◌, Option, none, some, String, str_eq,
  ◌<>◌, map, if◌then◌else◌,
}
use koshi_runtime.Base.Dict.{Dict, lookup}
use koshi_runtime.Base.Result.{Result, ok, err, ◌>>=◌, ◌>>◌, fail_if}
use koshi_runtime.Budget.Window.{second}
use koshi_runtime.Json.{Text}

pub data KeyUsage : Type 0 where
  cert_sign crl_sign digital_signature key_encipherment : KeyUsage

-- x509.Certificate, by the fields that are set. Times are in nanoseconds since the zero time.
pub record Certificate : Type 0 where
  pub serial_number : ℕ
  pub common_name : String
  pub dns_names : List String
  pub not_before : ℕ
  pub not_after : ℕ
  pub key_usage : List KeyUsage
  pub server_auth : Bool
  pub is_ca : Bool

-- crypto/rsa, crypto/x509 and encoding/pem. What reads randomness or the clock takes the number of
-- the call.
pub record Crypto (Key : Type 0) : Type 0 where
  pub generate_key : ℕ → Option Key
  pub random_serial : ℕ → Option ℕ
  pub now : ℕ → ℕ
  pub create_certificate : Certificate → Certificate → Key → Key → Option Text
  pub parse_certificate : Text → Option Certificate
  pub marshal_key : Key → Text
  pub parse_key : Text → Option Key
  pub encode_pem : String → Text → Text
  pub decode_pem : Text → Option Text

pub data CertError : Type 0 where
  missing_env no_ca no_serving_cert no_client secret_not_written : CertError
  no_secret no_ca_in_secret no_webhook webhook_not_patched : CertError

-- The error of a failed step.
abbrev pub required {ℓ} : {A : Type ℓ} → CertError → Option A → Result CertError A
required e none = err e
required e (some a) = ok a

infixl 5 ◌>>=?◌
abbrev pub ◌>>=?◌ {ℓ μ} : {S : Type ℓ} {T : Type μ} → Option S → (S → Option T) → Option T
none >>=? f = none
some a >>=? f = f a

abbrev minute : ℕ
minute = 60 * second

abbrev day : ℕ
day = 24 * (60 * minute)

abbrev pub ca_template : ℕ → ℕ → Certificate
ca_template serial now = record {
  serial_number = serial;
  common_name = "koshi-webhook-ca";
  dns_names = [];
  not_before = now - minute;
  not_after = now + 10 * (365 * day);
  key_usage = KeyUsage.cert_sign ∷ KeyUsage.crl_sign ∷ [];
  server_auth = false;
  is_ca = true;
}

abbrev serving_template : ℕ → ℕ → String → List String → Certificate
serving_template serial now name names = record {
  serial_number = serial;
  common_name = name;
  dns_names = name ∷ names;
  not_before = now - minute;
  not_after = now + 365 * day;
  key_usage = KeyUsage.digital_signature ∷ KeyUsage.key_encipherment ∷ [];
  server_auth = true;
  is_ca = false;
}

module _ {Key : Type 0} (crypto : Crypto Key) where
  open crypto use {
    generate_key, random_serial, now, create_certificate, parse_certificate, marshal_key, parse_key,
    encode_pem, decode_pem,
  }

  -- The certificate and its key, in PEM.
  unfoldable pub generate_ca : Option (Text × Text)
  generate_ca = generate_key 0 >>=? λ key. random_serial 0 >>=? λ serial.
      let template = ca_template serial (now 0) in
      create_certificate template template key key >>=? λ der.
      some (encode_pem "CERTIFICATE" der, encode_pem "RSA PRIVATE KEY" (marshal_key key))

  -- The names are the first, which is also the common name, and the others.
  unfoldable pub generate_serving_cert : Text → Text → String → List String → Option (Text × Text)
  generate_serving_cert ca_pem ca_key_pem name names = decode_pem ca_pem >>=? λ ca_block.
      parse_certificate ca_block >>=? λ ca_cert. decode_pem ca_key_pem >>=? λ key_block.
      parse_key key_block >>=? λ ca_key. generate_key 1 >>=? λ key. random_serial 1 >>=? λ serial.
      create_certificate (serving_template serial (now 1) name names) ca_cert key ca_key >>=? λ der.
      some (encode_pem "CERTIFICATE" der, encode_pem "RSA PRIVATE KEY" (marshal_key key))

pub record Secret : Type 0 where
  pub namespace : String
  pub name : String
  pub type : String
  pub entries : Dict Text

-- What the client of Kubernetes does to a cluster: a call fails, or gives its result. The webhooks
-- of a configuration are read by their names and patched by name and bundle.
pub record Client (Cluster : Type 0) : Type 0 where
  pub get_secret : String → String → Cluster → Option Secret
  pub update_secret : Secret → Cluster → Option Cluster
  pub create_secret : Secret → Cluster → Option Cluster
  pub get_webhooks : String → Cluster → Option (List String)
  pub patch_webhooks : String → List (String × Text) → Cluster → Option Cluster

abbrev pub secret_entries : Text → Text → Text → Dict Text
secret_entries ca_pem cert_pem key_pem =
    ("tls.crt", cert_pem) ∷ ("tls.key", key_pem) ∷ ("ca.crt", ca_pem) ∷ []

abbrev pub is_blank : Text → Bool
is_blank [] = true
is_blank (_ ∷ _) = false

abbrev bundle : Text → String → String × Text
bundle ca_pem name = (name, ca_pem)

abbrev pub bundles : Text → List String → List (String × Text)
bundles ca_pem names = map (bundle ca_pem) names

-- The entry ca.crt of the secret, if it is not empty.
abbrev pub ca_of : Secret → Result CertError Text
ca_of s = elim (lookup "ca.crt" s.entries) [
  | none ↦ err no_ca_in_secret
  | some ca ↦ if is_blank ca then err no_ca_in_secret else ok ca
]

module _ {Cluster : Type 0} (client : Client Cluster) where
  open client use {get_secret, update_secret, create_secret, get_webhooks, patch_webhooks}

  -- A secret that is there keeps all but its data.
  unfoldable pub ensure_secret : String → String → Dict Text → Cluster → Option Cluster
  ensure_secret namespace name entries cluster = elim (get_secret namespace name cluster) [
    | some existing ↦ update_secret (record existing { entries = entries }) cluster
    | none ↦
        create_secret
          (record {
            namespace = namespace;
            name = name;
            type = "kubernetes.io/tls";
            entries = entries;
          })
          cluster
  ]

  unfoldable pub patch_webhook_ca_bundle : String → Text → Cluster → Result CertError Cluster
  patch_webhook_ca_bundle name ca_pem cluster = do
    names ← required no_webhook (get_webhooks name cluster)
    required webhook_not_patched (patch_webhooks name (bundles ca_pem names) cluster)

-- The client may fail to connect.
unfoldable pub run_ca_bundle_phase :
    {Cluster : Type 0}
    → Option (Client Cluster)
    → (String → String)
    → Cluster
    → Result CertError Cluster
unfolding patch_webhook_ca_bundle
run_ca_bundle_phase connection getenv cluster = do
  fail_if
      (str_eq (getenv "KOSHI_NAMESPACE") ""
        || str_eq (getenv "KOSHI_SECRET_NAME") ""
        || str_eq (getenv "KOSHI_WEBHOOK_NAME") "")
      missing_env
  client ← required no_client connection
  secret ←
      required no_secret
        (client.get_secret (getenv "KOSHI_NAMESPACE") (getenv "KOSHI_SECRET_NAME") cluster)
  ca_pem ← ca_of secret
  patch_webhook_ca_bundle client (getenv "KOSHI_WEBHOOK_NAME") ca_pem cluster

unfoldable pub run_secret_phase :
    {Key Cluster : Type 0}
    → Crypto Key
    → Option (Client Cluster)
    → (String → String)
    → Cluster
    → Result CertError Cluster
unfolding generate_ca generate_serving_cert ensure_secret
run_secret_phase crypto connection getenv cluster = do
  fail_if
      (str_eq (getenv "KOSHI_NAMESPACE") ""
        || str_eq (getenv "KOSHI_SERVICE_NAME") ""
        || str_eq (getenv "KOSHI_SECRET_NAME") "")
      missing_env
  ca ← required no_ca (generate_ca crypto)
  serving ← required no_serving_cert (
      generate_serving_cert crypto ca.0 ca.1
        (getenv "KOSHI_SERVICE_NAME" <> ("." <> (getenv "KOSHI_NAMESPACE" <> ".svc"))) [])
  client ← required no_client connection
  required secret_not_written (
      ensure_secret client (getenv "KOSHI_NAMESPACE") (getenv "KOSHI_SECRET_NAME")
        (secret_entries ca.0 serving.0 serving.1) cluster)
