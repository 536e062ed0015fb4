-- ===== src/Proxy/Handle/Tests.antt =====
-- The handler of internal/proxy/proxy.go on one workload.
use koshi_runtime.Base.{
  if◌then◌else◌, ℕ, ◌≡◌, refl, true, false, [], ◌∷◌, some, none, String, Bool-cases, str_eq, inl,
  inr, arith,
}
use koshi_runtime.Base.Dict.{lookup}
use koshi_runtime.Base.Int.{pos, negsuc, leb_ℤ, ◌+ℤ◌}
use mathlib.Core.Option.{some-injective, none-ne-some}
use mathlib.Core.Path.{subst}
use koshi_runtime.Budget.Tracker.{
  Tracker, WorkloadState, BudgetStatus, Reservation, reserve, reserve_window,
}
use koshi_runtime.Budget.Tracker.Reserve.{still, IsReady}
use koshi_runtime.Budget.Window.{Window, advance, advance_to}
use koshi_runtime.Budget.Window.Sums.{mass}
use koshi_runtime.Budget.Window.Valid.{IsValid}
use koshi_runtime.Config.{Policy}
use koshi_runtime.Identity.{WorkloadIdentity, by_header}
use koshi_runtime.Json.{codes}
use koshi_runtime.Policy.{override}
use koshi_runtime.Provider.{
  detect_provider, to_lower, strip_port, before_last, is_infix, default_max_tokens,
}
use koshi_runtime.Provider.Usage.{unmarshal}
use koshi_runtime.Proxy.Effects.{
  Response, respond, Handler, State, Env, Request, Url, reply, next, skip, ◌>>◌, accounting_key,
}
use koshi_runtime.Proxy.Steps.{estimate, allow_step, decide_step, handle_with_policy}
use koshi_runtime.Proxy.TokenCount.{extract_max_tokens, first_of, is_streaming_request}
use koshi_runtime.Proxy.Upstream.{proxy_with_enforcement}
use koshi_runtime.Proxy.Handle.{serve_http, finish, degraded_response}
use koshi_runtime.Proxy.Handle.Degrade.{allow_step-degrades}
use koshi_runtime.Proxy.Handle.Denial.{refused, refused-decide_step, over_limit-decide_step}
use koshi_runtime.Proxy.Handle.Invariant.{HasValidBudgets, serve_http-HasValidBudgets}
use koshi_runtime.Proxy.Handle.Listener.{handle_with_policy-passes}

abbrev pub policy : Policy
policy = record {
  id = "strict";
  rolling_tokens = record { window_seconds = pos 3; limit_tokens = pos 100; burst_tokens = pos 20 };
  guards = record { max_tokens_per_request = pos 0 };
  decision_tiers = record { tier1_auto = "throttle"; tier3_platform = "" };
}

-- 30 tokens in the current second, 10 in the one before.
abbrev pub charged : Window
charged = record {
  buckets = pos 10 ∷ pos 30 ∷ pos 0 ∷ [];
  num_buckets = 3;
  head_idx = 1;
  head_time = 5_000_000_000;
  total_tokens = pos 40;
  burst_max = pos 20;
  burst_remaining = pos 20;
}

abbrev pub now : ℕ
now = 5_600_000_000

abbrev pub agent : String
agent = "agent"

abbrev pub tracker : Tracker
tracker = (agent, record { window = charged; window_seconds = pos 3; limit_tokens = pos 100 }) ∷ []

abbrev pub state : State
state = record { tracker = tracker; degraded = false; events = []; metrics = [] }

charged-IsValid : IsValid charged
charged-IsValid = record { positive = omega arith; sized = refl; head_in = omega arith }

state-HasValidBudgets : HasValidBudgets state
unfolding lookup
state-HasValidBudgets k ws e = elim (Bool-cases (str_eq agent k)) [
  | inl m ↦
      subst (λ (x : WorkloadState). IsValid x.window)
        (some-injective
          (record { window = charged; window_seconds = pos 3; limit_tokens = pos 100 }) ws
          (rw m at e))
        charged-IsValid
  | inr m ↦ absurd (none-ne-some ws (rw m at e))
]

abbrev pub ident : WorkloadIdentity
ident = record { workload_id = agent; namespace = ""; workload_kind = ""; workload_name = "" }

abbrev pub handler : String → Handler
handler mode = record {
  resolver = by_header "x-genops-workload-id";
  policy_engine = override policy;
  upstreams = ("openai", "https://api.openai.com") ∷ [];
  sse_extraction = true;
  version = "1";
  genops_spec_version = "0.1.0";
  mode = mode;
  listener_accounting_key = "";
}

abbrev pub url : Url
url = record {
  scheme = codes "https";
  host = codes "api.openai.com";
  path = codes "/v1";
  raw_query = [];
}

-- A body without a limit, a counter that takes no negative number, an upstream that answers 200.
abbrev pub env : Env
env = record {
  parse = λ _. none;
  marshal = λ _. [];
  parse_url = λ _. some url;
  accepts = λ n. leb_ℤ (pos 0) n;
  upstream = λ _ _. reply 200 (codes "application/json") [] none;
  readings = still now;
  record_add = now;
  record_total = now;
  panic_text = "counter cannot decrease";
  stack = "";
}

abbrev request : Request
request = record { header = λ _. agent; host = codes "api.openai.com"; url = url; body = [] }

serve_http-HasValidBudgets_example :
    HasValidBudgets (serve_http (handler "enforcement") env request state).0
serve_http-HasValidBudgets_example =
    serve_http-HasValidBudgets (handler "enforcement") env request state state-HasValidBudgets

handle_with_policy-passes_example :
    let h = handler "listener" in
    let pt = detect_provider request.host in
    let n = estimate env request pt in
    let key = accounting_key h ident.workload_id in
    let streaming = is_streaming_request env.parse request.body in
    (s' : State) × (res : Reservation) × (reserve key n env.readings state.tracker
      ≡ some (s'.tracker, res))
    × (handle_with_policy h env request ident policy state
        ≡ proxy_with_enforcement h env request
            (record {
              ident = ident;
              policy_id = policy.id;
              provider = pt;
              reserved = n;
              streaming = streaming;
              key = key;
            })
            s')
unfolding estimate extract_max_tokens first_of unmarshal detect_provider to_lower strip_port
    before_last is_infix default_max_tokens
handle_with_policy-passes_example =
    handle_with_policy-passes (handler "listener") refl env request ident policy state
      state-HasValidBudgets refl

pub charged-IsReady : IsReady (pos 100) (pos 90) now charged
unfolding advance advance_to ◌+ℤ◌ mass
charged-IsReady = record {
  valid = charged-IsValid;
  fits = omega arith;
  before = omega arith;
  after = omega arith;
  limit_ok = (omega arith, omega arith);
  burst_ok = (omega arith, omega arith);
}

-- 90 tokens on top of 40, with a limit of 100 and a burst of 20.
refused-decide_step_example :
    (bs : BudgetStatus) × (reserve_window (pos 100) (pos 90) (still now) charged
      ≡ some (advance now charged, bs, false))
    × (decide_step (handler "enforcement") ident policy "openai" (pos 90) (refused bs) state
        ≡ (state, next tt))
unfolding advance advance_to ◌+ℤ◌
refused-decide_step_example =
    refused-decide_step (handler "enforcement") ident policy "openai" state (pos 100) (pos 90) now
      charged charged-IsReady (omega arith) (omega arith)

allow_step-degrades_example :
    let h = handler "enforcement" in
    let (s', response) =
      finish h env ((allow_step h env ident policy "openai" (negsuc 4) false >> skip) state) in
    (s'.degraded ≡ true) × (s'.tracker ≡ state.tracker) × (response ≡ some degraded_response)
allow_step-degrades_example =
    allow_step-degrades (handler "enforcement") env ident policy "openai" (negsuc 4) false skip
      state refl

-- 90 tokens more, on a total of 40 with a limit of 20.
over_limit-decide_step_example :
    (bs : BudgetStatus) × (s' : State) × (r : Response) × (reserve_window
        (pos 20)
        (pos 90)
        (still now)
        charged
      ≡ some (advance now charged, bs, false))
    × (decide_step (handler "enforcement") ident policy "openai" (pos 90) (refused bs) state
        ≡ (s', respond r))
    × (s'.tracker ≡ state.tracker)
    × (r.status
        ≡ (if str_eq policy.decision_tiers.tier3_platform "kill_workload" then 503 else 429))
unfolding advance advance_to ◌+ℤ◌ mass
over_limit-decide_step_example =
    over_limit-decide_step (handler "enforcement") ident policy "openai" state (pos 20) (pos 90) now
      charged refl
      (record {
        valid = charged-IsReady.valid;
        fits = omega arith;
        before = omega arith;
        after = omega arith;
        limit_ok = (omega arith, omega arith);
        burst_ok = (omega arith, omega arith);
      })
      (omega arith) (omega arith)
