-- ===== src/Certgen/Tests.antt =====
-- The phases of internal/certgen/certgen.go on a cluster of one secret and two webhooks.
use koshi_runtime.Base.{
  ℕ, Bool, ◌≡◌, refl, true, false, ◌&&◌, List, [], ◌∷◌, Option, none, some, String, str_eq, eq_iff,
  Bool-cases, inl, inr, if◌then◌else◌,
}
use mathlib.Core.Option.{some-injective, none-ne-some}
use mathlib.Core.Path.{subst}
use koshi_runtime.Base.Result.{ok}
use koshi_runtime.Certgen.{
  Crypto, Secret, Client, ca_template, generate_ca, generate_serving_cert, secret_entries, bundles,
  required, webhook_not_patched, ensure_secret, run_ca_bundle_phase, run_secret_phase,
}
use koshi_runtime.Certgen.Phases.{IsFaithful, run_secret_phase-run_ca_bundle_phase}
use koshi_runtime.Json.{Text}

-- A key is a number; PEM is a byte in front.
abbrev crypto : Crypto ℕ
crypto = record {
  generate_key = λ i. some i;
  random_serial = λ i. some i;
  now = λ _. 1_000_000_000_000;
  create_certificate = λ c parent key signer. some (key ∷ signer ∷ []);
  parse_certificate = λ _. some (ca_template 0 0);
  marshal_key = λ k. k ∷ [];
  parse_key = λ _. some 7;
  encode_pem = λ kind block. 45 ∷ block;
  decode_pem = λ pem. some pem;
}

record Cluster : Type 0 where
  secret : Option Secret
  patched : List (String × Text)

abbrev is_secret : String → String → Secret → Bool
is_secret namespace name s = str_eq s.namespace namespace && str_eq s.name name

abbrev selected : String → String → Option Secret → Option Secret
selected namespace name none = none
selected namespace name (some s) = if is_secret namespace name s then some s else none

abbrev client : Client Cluster
client = record {
  get_secret = λ namespace name c. selected namespace name c.secret;
  update_secret = λ s c. some (record c { secret = some s });
  create_secret = λ s c. some (record c { secret = some s });
  get_webhooks = λ name c. some ("pods" ∷ "jobs" ∷ []);
  patch_webhooks = λ name patches c. some (record c { patched = patches });
}

written :
    (s : Secret) (c c' : Cluster)
    → some (record c { secret = some s }) ≡ some c'
    → (s' : Secret) × (selected s.namespace s.name c'.secret ≡ some s') × (s'.entries ≡ s.entries)
written s c c' e =
    subst
      (λ x.
        (s' : Secret) × (selected s.namespace s.name x.secret ≡ some s') × (s'.entries ≡ s.entries))
      (some-injective (record c { secret = some s }) c' e)
      (s, rw ((eq_iff s.namespace s.namespace).1 refl, (eq_iff s.name s.name).1 refl) refl, refl)

both : (a b : Bool) → (a && b) ≡ true → (a ≡ true) × (b ≡ true)
both true true e = (refl, refl)
both true false e = cc
both false b e = cc

same_names :
    (namespace name : String) (o : Option Secret) (s : Secret)
    → selected namespace name o ≡ some s
    → (s.namespace ≡ namespace) × (s.name ≡ name)
same_names namespace name none s e = absurd (none-ne-some s e)
same_names namespace name (some x) s e = elim (Bool-cases (is_secret namespace name x)) [
  | inl h ↦
      let (a, b) = both (str_eq x.namespace namespace) (str_eq x.name name) h in
      subst (λ y. (y.namespace ≡ namespace) × (y.name ≡ name)) (some-injective x s (rw h at e))
        ((eq_iff x.namespace namespace).0 a, (eq_iff x.name name).0 b)
  | inr h ↦ absurd (none-ne-some s (rw h at e))
]

client-IsFaithful : IsFaithful client
client-IsFaithful = record {
  found = λ namespace name c s e. same_names namespace name c.secret s e;
  updated = written;
  created = written;
}

abbrev getenv : String → String
getenv key = "koshi"

abbrev empty : Cluster
empty = record { secret = none; patched = [] }

abbrev filled : Cluster
filled = record {
  secret = some (record {
    namespace = "koshi";
    name = "koshi";
    type = "kubernetes.io/tls";
    entries = secret_entries (45 ∷ 0 ∷ 0 ∷ []) (45 ∷ 1 ∷ 7 ∷ []) (45 ∷ 1 ∷ []);
  });
  patched = [];
}

secret_written : run_secret_phase crypto (some client) getenv empty ≡ ok filled
unfolding run_secret_phase generate_ca generate_serving_cert ensure_secret
secret_written = refl

run_secret_phase-run_ca_bundle_phase_example :
    (ca_pem : Text) × (ca_key_pem : Text) × (generate_ca crypto ≡ some (ca_pem, ca_key_pem))
    × (run_ca_bundle_phase (some client) getenv filled
        ≡ required webhook_not_patched
            (client.patch_webhooks "koshi" (bundles ca_pem ("pods" ∷ "jobs" ∷ [])) filled))
run_secret_phase-run_ca_bundle_phase_example =
    run_secret_phase-run_ca_bundle_phase crypto client getenv empty filled ("pods" ∷ "jobs" ∷ [])
      client-IsFaithful (λ block. refl) secret_written refl refl
