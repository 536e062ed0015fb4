-- ===== src/Certgen/Phases.antt =====
-- The two phases of internal/certgen/certgen.go, one after the other.
use koshi_runtime.Base.{
  ◌≡◌, refl, sym, ap, Bool, true, false, ◌||◌, List, [], Option, none, some, String, str_eq, ◌<>◌,
  Option-cases, inl, inr,
}
use mathlib.Core.Option.{some-injective, none-ne-some}
use koshi_runtime.Base.Dict.{Dict, lookup}
use koshi_runtime.Base.Result.{ok, >>=-eq-ok}
use koshi_runtime.Certgen.{
  Crypto, ca_template, CertError, required, Secret, Client, generate_ca, generate_serving_cert,
  secret_entries, is_blank, ◌>>=?◌, bundles, ca_of, ensure_secret, missing_env, no_ca,
  no_serving_cert, secret_not_written, webhook_not_patched, patch_webhook_ca_bundle,
  run_ca_bundle_phase, run_secret_phase,
}
use koshi_runtime.Config.Sound.{after_check}
use koshi_runtime.Json.{Text}

-- What a cluster promises: a secret is found by its namespace and its name, and once written it is
-- read back with its entries.
pub record IsFaithful {Cluster : Type 0} (client : Client Cluster) : Type 0 where
  pub found :
      (namespace name : String) (c : Cluster) (s : Secret)
      → client.get_secret namespace name c ≡ some s
      → (s.namespace ≡ namespace) × (s.name ≡ name)
  pub updated :
      (s : Secret) (c c' : Cluster)
      → client.update_secret s c ≡ some c'
      → (s' : Secret) × (client.get_secret s.namespace s.name c' ≡ some s')
        × (s'.entries ≡ s.entries)
  pub created :
      (s : Secret) (c c' : Cluster)
      → client.create_secret s c ≡ some c'
      → (s' : Secret) × (client.get_secret s.namespace s.name c' ≡ some s')
        × (s'.entries ≡ s.entries)

there : {A : Type 0} (e : CertError) (o : Option A) (a : A) → required e o ≡ ok a → o ≡ some a
there e none a h = cc
there e (some b) a h = cc

ensure_secret-found :
    {Cluster : Type 0} (client : Client Cluster) (namespace name : String) (entries : Dict Text)
    (c c' : Cluster)
    → IsFaithful client
    → ensure_secret client namespace name entries c ≡ some c'
    → (s : Secret) × (client.get_secret namespace name c' ≡ some s) × (s.entries ≡ entries)
unfolding ensure_secret
ensure_secret-found client namespace name entries c c' faithful done =
    elim (Option-cases (client.get_secret namespace name c)) [
      | inl e ↦
          faithful.created
            (record {
              namespace = namespace;
              name = name;
              type = "kubernetes.io/tls";
              entries = entries;
            })
            c c' (rw (ensure_secret, e) at done)
      | inr (s, e) ↦
          let (same, same') = faithful.found namespace name c s e in
          rw (sym same, sym same')
            (faithful.updated (record s { entries = entries }) c c' (rw (ensure_secret, e) at done))
    ]

-- The certificate of the authority is in PEM.
generate_ca-encode_pem :
    {Key : Type 0} (crypto : Crypto Key) (ca : Text × Text)
    → generate_ca crypto ≡ some ca
    → (der : Text) × (ca.0 ≡ crypto.encode_pem "CERTIFICATE" der)
unfolding generate_ca
generate_ca-encode_pem crypto ca e =
    let (key, _, e1) = reached (crypto.generate_key 0) _ ca e in
    let (serial, _, e2) = reached (crypto.random_serial 0) _ ca e1 in
    let template = ca_template serial (crypto.now 0) in
    let pem : Text → Text × Text = λ der. (
      crypto.encode_pem "CERTIFICATE" der,
      crypto.encode_pem "RSA PRIVATE KEY" (crypto.marshal_key key),
    ) in
    let (der, _, e3) =
      reached (crypto.create_certificate template template key key) (λ d. some (pem d)) ca e2 in
    (der, sym (ap (λ x. x.0) (some-injective (pem der) ca e3)))
  where
    reached :
        {A B : Type 0} (o : Option A) (f : A → Option B) (b : B)
        → o >>=? f ≡ some b
        → (a : A) × (o ≡ some a) × (f a ≡ some b)
    reached none f b h = absurd (none-ne-some b h)
    reached (some a) f b h = (a, refl, h)

ca_of-secret_entries :
    (s : Secret) (ca_pem cert_pem key_pem : Text)
    → s.entries ≡ secret_entries ca_pem cert_pem key_pem
    → is_blank ca_pem ≡ false
    → ca_of s ≡ ok ca_pem
unfolding lookup
ca_of-secret_entries s ca_pem cert_pem key_pem e full = rw (e, full) refl

bundle_phase_runs :
    {Cluster : Type 0} (client : Client Cluster) (getenv : String → String) (c : Cluster)
    (s : Secret) (ca_pem : Text) (names : List String)
    → (str_eq (getenv "KOSHI_NAMESPACE") ""
        || str_eq (getenv "KOSHI_SECRET_NAME") ""
        || str_eq (getenv "KOSHI_WEBHOOK_NAME") "")
      ≡ false
    → client.get_secret (getenv "KOSHI_NAMESPACE") (getenv "KOSHI_SECRET_NAME") c ≡ some s
    → ca_of s ≡ ok ca_pem
    → client.get_webhooks (getenv "KOSHI_WEBHOOK_NAME") c ≡ some names
    → run_ca_bundle_phase (some client) getenv c
      ≡ required webhook_not_patched
          (client.patch_webhooks (getenv "KOSHI_WEBHOOK_NAME") (bundles ca_pem names) c)
unfolding run_ca_bundle_phase patch_webhook_ca_bundle
bundle_phase_runs client getenv c s ca_pem names present read ca hooks =
    rw (run_ca_bundle_phase, present, read, ca, patch_webhook_ca_bundle, hooks) refl

both_named : (a b c d : Bool) → (a || b || c) ≡ false → d ≡ false → (a || c || d) ≡ false
both_named false false false false h h' = refl
both_named true b c d h h' = cc
both_named false true c d h h' = cc
both_named false false true d h h' = cc
both_named false false false true h h' = cc

-- On a cluster that reads a written secret back, and with PEM texts that are not empty, once
-- RunSecretPhase has succeeded RunCABundlePhase, for a webhook configuration that is there,
-- finds the secret and patches each of its webhooks with the certificate of the authority that
-- was generated, and its result is that of the patch.
pub run_secret_phase-run_ca_bundle_phase :
    {Key Cluster : Type 0} (crypto : Crypto Key) (client : Client Cluster)
    (getenv : String → String) (c c' : Cluster) (names : List String)
    → IsFaithful client
    → ((block : Text) → is_blank (crypto.encode_pem "CERTIFICATE" block) ≡ false)
    → run_secret_phase crypto (some client) getenv c ≡ ok c'
    → str_eq (getenv "KOSHI_WEBHOOK_NAME") "" ≡ false
    → client.get_webhooks (getenv "KOSHI_WEBHOOK_NAME") c' ≡ some names
    → (ca_pem : Text) × (ca_key_pem : Text) × (generate_ca crypto ≡ some (ca_pem, ca_key_pem))
      × (run_ca_bundle_phase (some client) getenv c'
          ≡ required webhook_not_patched
              (client.patch_webhooks (getenv "KOSHI_WEBHOOK_NAME") (bundles ca_pem names) c'))
unfolding run_secret_phase
run_secret_phase-run_ca_bundle_phase crypto client getenv c c' names faithful full done named
      hooks =
    let dns_name = getenv "KOSHI_SERVICE_NAME" <> ("." <> (getenv "KOSHI_NAMESPACE" <> ".svc")) in
    let (present, r1) = after_check _ missing_env _ c' done in
    let (ca, e1, r2) = >>=-eq-ok (required no_ca (generate_ca crypto)) _ r1 in
    let (serving, e2, r3) =
      >>=-eq-ok (required no_serving_cert (generate_serving_cert crypto ca.0 ca.1 dns_name [])) _
        r2 in
    let generated = there no_ca (generate_ca crypto) ca e1 in
    let (s, read, entries) =
      ensure_secret-found client (getenv "KOSHI_NAMESPACE") (getenv "KOSHI_SECRET_NAME")
        (secret_entries ca.0 serving.0 serving.1) c c' faithful
        (there secret_not_written _ c' r3) in
    let (der, encoded) = generate_ca-encode_pem crypto ca generated in
    (
      ca.0,
      ca.1,
      generated,
      bundle_phase_runs client getenv c' s ca.0 names
          (both_named (str_eq (getenv "KOSHI_NAMESPACE") "")
            (str_eq (getenv "KOSHI_SERVICE_NAME") "") (str_eq (getenv "KOSHI_SECRET_NAME") "") _
            present named)
          read (ca_of-secret_entries s ca.0 serving.0 serving.1 entries (rw encoded (full der)))
          hooks,
    )
