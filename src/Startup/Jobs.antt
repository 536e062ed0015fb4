-- ===== src/Startup/Jobs.antt =====
-- The jobs of cmd/koshi/certgen.go: a phase of the certificates, and the status of the process. The
-- log lines are left out.
use koshi_runtime.Base.{ℕ, Option, String}
use koshi_runtime.Base.Result.{Result, ok, err}
use koshi_runtime.Certgen.{Crypto, Client, CertError, run_secret_phase, run_ca_bundle_phase}

-- A process that ends by itself leaves the cluster; else it exits with a status.
abbrev finished {ℓ} : {Cluster : Type ℓ} → Result CertError Cluster → Result ℕ Cluster
finished (ok cluster) = ok cluster
finished (err e) = err 1

unfoldable pub run_certgen_secret :
    {Key Cluster : Type 0}
    → Crypto Key
    → Option (Client Cluster)
    → (String → String)
    → Cluster
    → Result ℕ Cluster
run_certgen_secret crypto connection getenv cluster =
    finished (run_secret_phase crypto connection getenv cluster)

unfoldable pub run_certgen_ca_bundle :
    {Cluster : Type 0} → Option (Client Cluster) → (String → String) → Cluster → Result ℕ Cluster
run_certgen_ca_bundle connection getenv cluster =
    finished (run_ca_bundle_phase connection getenv cluster)
