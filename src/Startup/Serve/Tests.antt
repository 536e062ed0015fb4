-- ===== src/Startup/Serve/Tests.antt =====
-- Two requests on a started process of cmd/koshi/main.go.
use koshi_runtime.Base.{◌≡◌, refl, [], ◌∷◌, List, none, some}
use koshi_runtime.Base.Int.{pos, leb_ℤ}
use koshi_runtime.Budget.Tracker.{Tracker, Reservation, reserve}
use koshi_runtime.Budget.Tracker.Frame.{AllValid}
use koshi_runtime.Budget.Tracker.Reserve.{still}
use koshi_runtime.Json.{codes}
use koshi_runtime.Proxy.Effects.{Env, Request, reply}
use koshi_runtime.Startup.Wire.{Wiring, running, handler_of, state_of, wire}
use koshi_runtime.Startup.Serve.Requests.{after_requests, load_config-reserve}
use koshi_runtime.Startup.Tests.{
  with_file, one_workload, now, agent, file_loaded, one_workload_fits,
}

abbrev env : Env
env = record {
  parse = λ _. none;
  marshal = λ _. [];
  parse_url = λ _. none;
  accepts = λ n. leb_ℤ (pos 0) n;
  upstream = λ _ _. reply 200 [] [] none;
  readings = still 5_000_000_000;
  record_add = 5_000_000_000;
  record_total = 5_000_000_000;
  panic_text = "";
  stack = "";
}

abbrev request : Request
request = record {
  header = λ _. "agent";
  host = codes "api.openai.com";
  url = record { scheme = []; host = []; path = codes "/v1"; raw_query = [] };
  body = [];
}

abbrev requests : List (Env × Request)
requests = (env, request) ∷ (env, request) ∷ []

load_config-reserve_example :
    (w : Wiring) × (t' : Tracker) × (res : Reservation) × (wire with_file one_workload now
      ≡ running w)
    × (reserve "agent"
          (pos 10)
          (still 6_000_000_000)
          (after_requests (handler_of one_workload w) requests (state_of w)).tracker
        ≡ some (t', res))
    × (res.err ≡ none)
    × AllValid t'
load_config-reserve_example =
    load_config-reserve with_file one_workload now 0 agent requests (pos 10) (still 6_000_000_000)
      file_loaded refl tt one_workload_fits refl
