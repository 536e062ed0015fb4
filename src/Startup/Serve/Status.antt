-- ===== src/Startup/Serve/Status.antt =====
-- What GET /status reports, by the trackers' own Status.
use koshi_runtime.Base.{
  ℕ, ◌≡◌, refl, sym, ◌∙◌, ap, [], ◌∷◌, none, some, String, str_eq, eq_iff, Bool-cases, Option-cases,
  ◌⊎◌, inl, inr,
}
use mathlib.Core.Option.{none-ne-some, some-injective}
use mathlib.Core.Path.{subst}
use koshi_runtime.Base.Dict.{Dict, lookup}
use koshi_runtime.Budget.Tracker.{
  Tracker, WorkloadState, WorkloadStatus, BudgetStatus, status_all, status, status_state,
}
use koshi_runtime.Budget.Tracker.Frame.{AllValid, total-IsValid}
use koshi_runtime.Budget.Window.{total}
use koshi_runtime.Budget.Window.Valid.{IsValid}
use koshi_runtime.Proxy.Effects.{Handler, State}
use koshi_runtime.Startup.Serve.{WorkloadStatusDto, StatusResponse, dto_of, dtos_of, serve_status}

-- The state after the report, and the report, for one workload.
abbrev after : ℕ → WorkloadState → WorkloadState
after now ws = record ws { window = (total now ws.window).0 }

abbrev report : ℕ → WorkloadState → WorkloadStatus
report now ws = record {
  limit_tokens = ws.limit_tokens;
  window_tokens_used = (total now ws.window).1;
  burst_remaining = (total now ws.window).0.burst_remaining;
  window_seconds = ws.window_seconds;
}

status_all-some :
    (now : String → ℕ) (t : Tracker) (id : String) (ws : WorkloadState)
    → lookup id t ≡ some ws
    → (lookup id (status_all now t).0 ≡ some (after (now id) ws))
      × (lookup id (status_all now t).1 ≡ some (report (now id) ws))
unfolding status_all lookup
status_all-some now [] id ws e = absurd (none-ne-some ws e)
status_all-some now ((name, x) ∷ t) id ws e = elim (Bool-cases (str_eq name id)) [
  | inl s ↦
      let same : name ≡ id = (eq_iff name id).0 s in
      let found : x ≡ ws = some-injective x ws (rw (lookup, s) at e) in
      rw (status_all, lookup, s) (rw (same, found) (refl, refl))
  | inr s ↦ rw (status_all, lookup, s) (status_all-some now t id ws (rw (lookup, s) at e))
]

status_all-none :
    (now : String → ℕ) (t : Tracker) (id : String)
    → lookup id t ≡ none
    → (lookup id (status_all now t).0 ≡ none) × (lookup id (status_all now t).1 ≡ none)
unfolding status_all lookup
status_all-none now [] id e = (refl, refl)
status_all-none now ((name, x) ∷ t) id e = elim (Bool-cases (str_eq name id)) [
  | inl s ↦ absurd (none-ne-some x (sym (rw (lookup, s) at e)))
  | inr s ↦ rw (status_all, lookup, s) (status_all-none now t id (rw (lookup, s) at e))
]

lookup-dtos_of :
    (all : Dict WorkloadStatus) (id : String) (ws : WorkloadStatus)
    → lookup id all ≡ some ws
    → lookup id (dtos_of all) ≡ some (dto_of ws)
unfolding dtos_of lookup
lookup-dtos_of [] id ws e = absurd (none-ne-some ws e)
lookup-dtos_of ((name, x) ∷ all) id ws e = elim (Bool-cases (str_eq name id)) [
  | inl s ↦
      rw (dtos_of, lookup, s)
        (ap (λ y. some (dto_of y)) (some-injective x ws (rw (lookup, s) at e)))
  | inr s ↦ rw (dtos_of, lookup, s) (lookup-dtos_of all id ws (rw (lookup, s) at e))
]

lookup-dtos_of-none :
    (all : Dict WorkloadStatus) (id : String)
    → lookup id all ≡ none
    → lookup id (dtos_of all) ≡ none
unfolding dtos_of lookup
lookup-dtos_of-none [] id e = refl
lookup-dtos_of-none ((name, x) ∷ all) id e = elim (Bool-cases (str_eq name id)) [
  | inl s ↦ absurd (none-ne-some x (sym (rw (lookup, s) at e)))
  | inr s ↦ rw (dtos_of, lookup, s) (lookup-dtos_of-none all id (rw (lookup, s) at e))
]

status_all-AllValid : (now : String → ℕ) (t : Tracker) → AllValid t → AllValid (status_all now t).0
status_all-AllValid now t all k x e = elim (Option-cases (lookup k t)) [
  | inl n ↦ absurd (none-ne-some x (sym (status_all-none now t k n).0 ∙ e))
  | inr (ws, f) ↦
      let same = some-injective (after (now k) ws) x (sym (status_all-some now t k ws f).0 ∙ e) in
      subst (λ y. IsValid y.window) same (total-IsValid (now k) ws.window (all k ws f))
]

-- The report of one workload says what its Status says, with its window's length.
abbrev pub IsReported : WorkloadState → WorkloadStatusDto → BudgetStatus → Type 0
IsReported ws d st =
    (d.limit_tokens ≡ st.window_tokens_limit)
    × (d.window_tokens_used ≡ st.window_tokens_used)
    × (d.burst_remaining ≡ st.burst_remaining)
    × (d.window_seconds ≡ ws.window_seconds)

-- A GET of the status keeps every window valid and reports for each workload what Status reports
-- for it, with the length of its window, and nothing for a workload that is not registered.
pub serve_status-status :
    (h : Handler) (now : String → ℕ) (dropped : ℕ) (s : State) (id : String)
    → AllValid s.tracker
    → (s' : State) × (resp : StatusResponse) × (serve_status h "GET" now dropped s
        ≡ (s', some resp))
      × AllValid s'.tracker
      × (((lookup id resp.workloads ≡ none) × ((status id (now id) s.tracker).1 ≡ none))
          ⊎ ((ws : WorkloadState) × (d : WorkloadStatusDto) × (st : BudgetStatus) × (lookup id
                  s.tracker
                ≡ some ws)
              × (lookup id resp.workloads ≡ some d)
              × ((status id (now id) s.tracker).1 ≡ some st)
              × IsReported ws d st))
unfolding serve_status status status_state
serve_status-status h now dropped s id all = (
  record s { tracker = (status_all now s.tracker).0 },
  record {
    version = h.version;
    genops_spec_version = h.genops_spec_version;
    dropped_events = dropped;
    workloads = dtos_of (status_all now s.tracker).1;
  },
  refl,
  status_all-AllValid now s.tracker all,
  elim (Option-cases (lookup id s.tracker)) [
    | inl e ↦ inl (
      lookup-dtos_of-none (status_all now s.tracker).1 id (status_all-none now s.tracker id e).1,
      rw (status, e) refl,
    )
    | inr (ws, e) ↦ inr (
      ws,
      dto_of (report (now id) ws),
      record {
        window_tokens_used = (total (now id) ws.window).1;
        window_tokens_limit = ws.limit_tokens;
        burst_remaining = (total (now id) ws.window).0.burst_remaining;
      },
      e,
      lookup-dtos_of (status_all now s.tracker).1 id (report (now id) ws)
          (status_all-some now s.tracker id ws e).1,
      rw (status, e, status_state) refl,
      (refl, refl, refl, refl),
    )
  ],
)
