-- ===== src/Proxy/Handle/Once.antt =====
-- How often a request touches the budgets of internal/budget/tracker.go on its way through
-- internal/proxy/proxy.go.
use koshi_runtime.Base.{ℕ, ◌≡◌, ◌⊎◌, List, Option, some, String}
use koshi_runtime.Base.Int.{ℤ, pos, sub64}
use koshi_runtime.Base.Result.{Result, ok}
use koshi_runtime.Budget.Tracker.{Tracker, Reservation, reserve, record_usage}
use koshi_runtime.Config.{Policy}
use koshi_runtime.Identity.{WorkloadIdentity}
use koshi_runtime.Json.{Text}
use koshi_runtime.Provider.{Provider, detect_provider}
use koshi_runtime.Provider.Usage.{UsageData, parse_usage}
use koshi_runtime.Proxy.Effects.{Handler, State, Env, Url, Request, reply, accounting_key}
use koshi_runtime.Proxy.Sse.{SseParser, new_reader, close}
use koshi_runtime.Proxy.Steps.{estimate}
use koshi_runtime.Proxy.TokenCount.{is_streaming_request}
use koshi_runtime.Proxy.Upstream.{Call, joined, read_all}
use koshi_runtime.Proxy.Handle.Leads.{Leads}

-- The upstream has sent these pieces.
abbrev pub Sends : Env → List Text → Type 0
Sends env pieces =
    (u : Url) × (body : Text) × (status : ℕ) × (ct : Text) × (broken : Option String)
    × (env.upstream u body ≡ reply status ct pieces broken)

-- The usage that a whole body reports, or a stream whose reader is closed.
abbrev pub Reports : Env → Provider → List Text → UsageData → Type 0
Reports env p pieces usage =
    (parse_usage env.parse p (joined pieces) ≡ some (ok (some usage)))
    ⊎ ((parser : SseParser) × ((close (read_all env pieces (new_reader parser))).1 ≡ some usage))

-- What a request is found to have used: nothing, or what the upstream's answer reports.
abbrev pub IsActual : Env → Provider → ℤ → Type 0
IsActual env p n =
    (n ≡ pos 0)
    ⊎ ((pieces : List Text) × (usage : UsageData) × Sends env pieces
        × Reports env p pieces usage
        × (n ≡ usage.total_tokens))

-- The tracker is this one, or Record has led from it to this one, by the difference of what was used
-- to what was reserved.
abbrev pub Recorded : Env → Provider → String → ℤ → Tracker → Tracker → Type 0
Recorded env p key reserved t t' =
    (t' ≡ t)
    ⊎ ((n : ℤ) × IsActual env p n
        × (record_usage key (sub64 n reserved) env.record_add env.record_total t ≡ some t'))

module _ (h : Handler) (env : Env) (c : Call) (t : Tracker) where
  abbrev At : State → Type 0
  At s = s.tracker ≡ t

  abbrev After : State → Type 0
  After s = Recorded env c.provider c.key c.reserved t s.tracker

-- Reserve of these tokens has led from the first tracker to the second, or nothing has.
abbrev pub Booked : Env → String → ℤ → Tracker → Tracker → Type 0
Booked env key n t t' =
    (t' ≡ t) ⊎ ((res : Reservation) × (reserve key n env.readings t ≡ some (t', res)))

module _ (h : Handler) (env : Env) (r : Request) (i : WorkloadIdentity) (pol : Policy)
    (t : Tracker) where
  abbrev key : String
  key = accounting_key h i.workload_id

  abbrev provider : Provider
  provider = detect_provider r.host

  abbrev tokens : ℤ
  tokens = estimate env r provider

  abbrev Before : State → Type 0
  Before s = s.tracker ≡ t

  abbrev Between : State → Type 0
  Between s = Booked env key tokens t s.tracker

  abbrev Finally : State → Type 0
  Finally s =
      (t' : Tracker) × Booked env key tokens t t' × Recorded env provider key tokens t' s.tracker

  -- What is known of the request when it goes to the upstream.
  abbrev call : Call
  call = record {
    ident = i;
    policy_id = pol.id;
    provider = provider;
    reserved = tokens;
    streaming = is_streaming_request env.parse r.body;
    key = key;
  }
