-- ===== src/Startup/Serve.antt =====
-- The endpoints of cmd/koshi/main.go, with ServeStatus of internal/proxy/proxy.go.
pub mod Status
pub mod Requests
mod Tests
use koshi_runtime.Base.{
  ℕ, Bool, true, false, not, List, [], ◌∷◌, Option, none, some, String, str_eq, if◌then◌else◌,
}
use koshi_runtime.Base.Dict.{Dict}
use koshi_runtime.Base.Int.{ℤ}
use koshi_runtime.Budget.Tracker.{WorkloadStatus, status_all}
use koshi_runtime.Proxy.Effects.{Handler, State, Env, Request, Response}
use koshi_runtime.Proxy.Handle.{serve_http}

-- resolveListenAddr
unfoldable pub resolve_listen_addr : String → String → String
resolve_listen_addr cfg_addr env_override =
    if not (str_eq env_override "")
    then env_override
    else if not (str_eq cfg_addr "")
    then cfg_addr
    else ":8080"

-- IsDegraded
abbrev is_degraded : State → Bool
is_degraded s = s.degraded

-- The handlers of /healthz and /readyz: a status and a text.
unfoldable pub healthz : State → ℕ × String
healthz s = if is_degraded s then (503, "degraded") else (200, "ok")

unfoldable pub readyz : State → ℕ × String
readyz s = if is_degraded s then (503, "degraded") else (200, "ready")

-- statusResponse and workloadStatusDTO; the order of a JSON object's members is not kept.
pub record WorkloadStatusDto : Type 0 where
  pub limit_tokens : ℤ
  pub window_tokens_used : ℤ
  pub burst_remaining : ℤ
  pub window_seconds : ℤ

pub record StatusResponse : Type 0 where
  pub version : String
  pub genops_spec_version : String
  pub dropped_events : ℕ
  pub workloads : Dict WorkloadStatusDto

abbrev pub dto_of : WorkloadStatus → WorkloadStatusDto
dto_of ws = record {
  limit_tokens = ws.limit_tokens;
  window_tokens_used = ws.window_tokens_used;
  burst_remaining = ws.burst_remaining;
  window_seconds = ws.window_seconds;
}

unfoldable pub dtos_of : Dict WorkloadStatus → Dict WorkloadStatusDto
dtos_of [] = []
dtos_of ((id, ws) ∷ rest) = (id, dto_of ws) ∷ dtos_of rest

-- `none` is 405, for a method other than GET. The readings of the clock are for each workload.
unfoldable pub serve_status :
    Handler → String → (String → ℕ) → ℕ → State → State × Option StatusResponse
unfolding dtos_of
serve_status h method now dropped s =
    if not (str_eq method "GET")
    then (s, none)
    else (let (t, all) = status_all now s.tracker in
        (
          record s { tracker = t },
          some (record {
            version = h.version;
            genops_spec_version = h.genops_spec_version;
            dropped_events = dropped;
            workloads = dtos_of all;
          }),
        ))

pub data Endpoint : Type 0 where
  health ready status metrics proxy : Endpoint

-- The patterns of the mux, none of which but the last is a prefix.
unfoldable pub endpoint_of : String → Endpoint
endpoint_of path =
    if str_eq path "/healthz"
    then Endpoint.health
    else if str_eq path "/readyz"
    then Endpoint.ready
    else if str_eq path "/status"
    then Endpoint.status
    else if str_eq path "/metrics"
    then Endpoint.metrics
    else Endpoint.proxy
