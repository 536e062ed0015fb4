-- ===== src/Proxy/Upstream.antt =====
-- The way to the upstream and back: resolveUpstream, proxyDirect, proxyWithEnforcement and
-- handleNonStreamingResponse of internal/proxy/proxy.go.
pub mod Refund
pub mod Stream
use koshi_runtime.Base.{
  ℕ, Bool, true, false, ◌&&◌, not, leb, List, [], ◌∷◌, ◌++◌, Option, none, some, String, str_eq,
  if◌then◌else◌,
}
use koshi_runtime.Base.Dict.{lookup}
use koshi_runtime.Base.Int.{ℤ, pos, sub64}
use koshi_runtime.Base.Result.{Result, ok, err}
use koshi_runtime.Budget.Tracker.{Tracker, record_usage}
use koshi_runtime.Emit.{Event, text, number, decimal, event_budget_reconciled}
use koshi_runtime.Identity.{WorkloadIdentity}
use koshi_runtime.Json.{Text, codes}
use koshi_runtime.Provider.{Provider, detect_provider, to_lower, is_infix}
use koshi_runtime.Provider.Usage.{UsageData, ParseError, parse_usage}
use koshi_runtime.Proxy.Anthropic.{new_accumulator}
use koshi_runtime.Proxy.Effects.{
  Handler, State, Env, Url, Request, Reply, no_reply, reply, Response, bytes, Outcome, next,
  panicked, M, ◌>>◌, answer, skip, unless, sent, cut_off, emit_event, count_tokens,
  tokens_used_total,
}
use koshi_runtime.Proxy.Respond.{error_response}
use koshi_runtime.Proxy.Sse.{SseParser, openai, anthropic, Reader, new_reader, read, close}
use koshi_runtime.Proxy.TokenCount.{
  Injected, failed, panicked as panics, injected, inject_stream_options,
}

-- A missing key of a map of strings reads as the empty text.
abbrev get_or_empty : Option String → String
get_or_empty none = ""
get_or_empty (some v) = v

abbrev base_url : Handler → Provider → String
base_url h Provider.open_ai = get_or_empty (lookup "openai" h.upstreams)
base_url h Provider.anthropic = get_or_empty (lookup "anthropic" h.upstreams)
base_url h Provider.google = get_or_empty (lookup "google" h.upstreams)
base_url h Provider.unknown = ""

abbrev is_unknown : Provider → Bool
is_unknown Provider.unknown = true
is_unknown _ = false

abbrev is_blank : Text → Bool
is_blank [] = true
is_blank (_ ∷ _) = false

-- A configured URL, with the path and the query of the request.
unfoldable pub redirect : Request → Option Url → Option Url
redirect r none = none
redirect r (some u) = some (record u { path = r.url.path; raw_query = r.url.raw_query })

unfoldable pub upstream_of : Handler → Env → Request → Provider → Option Url
unfolding redirect
upstream_of h env r pt =
    let base = base_url h pt in
    if str_eq base ""
    then (if is_unknown pt && not (is_blank r.url.scheme) && not (is_blank r.url.host)
        then some r.url
        else none)
    else redirect r (env.parse_url base)

unfoldable pub resolve_upstream : Handler → Env → Request → Option Url
unfolding upstream_of
resolve_upstream h env r = upstream_of h env r (detect_provider (to_lower r.host))

abbrev pub not_configured : Response
not_configured =
    error_response 502 "upstream_not_configured" "system" "no_upstream_for_provider" "reject"
      "upstream_not_configured"

-- The pieces of a body, joined.
unfoldable pub joined : List Text → Text
joined [] = []
joined (p ∷ ps) = p ++ joined ps

-- The upstream's answer as the client gets it.
abbrev pub passed_on : ℕ → List Text → Response
passed_on status pieces = record {
  status = status;
  headers = [];
  retry_after = none;
  body = bytes (joined pieces);
}

-- ReverseProxy answers 502 itself where the upstream does not.
unfoldable pub direct : Reply → M (Unit {0})
direct (no_reply e) =
    answer (record { status = 502; headers = []; retry_after = none; body = bytes [] })
direct (reply status ct pieces broken) = sent (passed_on status pieces) (cut_off broken)

unfoldable pub direct_to : Env → Request → Option Url → M (Unit {0})
unfolding direct
direct_to env r none = answer not_configured
direct_to env r (some u) = direct (env.upstream u r.body)

unfoldable pub proxy_direct : Handler → Env → Request → M (Unit {0})
unfolding direct_to
proxy_direct h env r = direct_to env r (resolve_upstream h env r)

-- Record of the tracker, as a step; a panic of the tracker is one of the handler.
abbrev tracked : State → Option Tracker → State × Outcome (Unit {0})
tracked s none = (s, panicked none)
tracked s (some t) = (record s { tracker = t }, next tt)

unfoldable pub record_delta : Env → String → ℤ → M (Unit {0})
record_delta env key delta s =
    tracked s (record_usage key delta env.record_add env.record_total s.tracker)

abbrev reconciled : WorkloadIdentity → ℤ → ℤ → ℤ → String → Event
reconciled ident reserved actual delta phase = record {
  type = event_budget_reconciled;
  workload_id = ident.workload_id;
  attributes =
      ("reserved_tokens", number reserved)
      ∷ ("actual_tokens", number actual)
      ∷ ("delta_tokens", number delta)
      ∷ ("phase", text phase)
      ∷ [];
  severity = "info";
}

abbrev pub is_zero : ℤ → Bool
is_zero (pos n) = leb n 0
is_zero _ = false

-- What is known of the request behind the reservation.
pub record Call : Type 0 where
  pub ident : WorkloadIdentity
  pub policy_id : String
  pub provider : Provider
  pub reserved : ℤ
  pub streaming : Bool
  pub key : String

-- The reconciliation with the actual usage, of a body and of a stream.
unfoldable pub reconcile : Handler → Env → Call → UsageData → M (Unit {0})
unfolding record_delta emit_event count_tokens
reconcile h env c usage =
    let delta = sub64 usage.total_tokens c.reserved in
    do
      record_delta env c.key delta
      unless (is_zero delta)
          (emit_event h (reconciled c.ident c.reserved usage.total_tokens delta "actual"))
      count_tokens env usage.total_tokens
          (tokens_used_total c.ident.workload_id c.policy_id "actual" usage.total_tokens)

-- On a status of 500 and more the reservation goes back.
unfoldable pub refund : Handler → Env → Call → ℕ → M (Unit {0})
unfolding record_delta emit_event count_tokens
refund h env c status =
    let delta = sub64 (pos 0) c.reserved in
    do
      record_delta env c.key delta
      emit_event h (reconciled c.ident c.reserved (pos 0) delta "refund")
      count_tokens env c.reserved
          (tokens_used_total c.ident.workload_id c.policy_id "refund" c.reserved)
      emit_event h (record {
        type = "upstream_error";
        workload_id = c.ident.workload_id;
        attributes = ("status", decimal (pos status)) ∷ [];
        severity = "warn";
      })

-- The parser of a stream, where usage is looked for.
abbrev pub stream_parser : Handler → Call → Option SseParser
stream_parser h c = if c.streaming && h.sse_extraction then parser_of c.provider else none
  where
    parser_of : Provider → Option SseParser
    parser_of Provider.open_ai = some openai
    parser_of Provider.anthropic = some (anthropic new_accumulator)
    parser_of _ = none

-- The reader over the pieces that the client reads.
unfoldable pub read_all : Env → List Text → Reader → Reader
read_all env [] r = r
read_all env (p ∷ ps) r = read_all env ps (read env.parse p r).0

-- onUsage
unfoldable pub on_usage : Handler → Env → Call → Option UsageData → M (Unit {0})
unfolding reconcile
on_usage h env c none = skip
on_usage h env c (some u) = reconcile h env c u

-- The reader is closed, with what it has found, also where the body breaks off.
unfoldable pub pass_stream :
    Handler → Env → Call → ℕ → List Text → Option String → Option SseParser → M (Unit {0})
unfolding on_usage read_all close
pass_stream h env c status pieces broken none = sent (passed_on status pieces) (cut_off broken)
pass_stream h env c status pieces broken (some p) =
    sent (passed_on status pieces)
      (on_usage h env c (close (read_all env pieces (new_reader p))).1 >> cut_off broken)

-- The result of ParseUsage: without usage the reservation stands.
unfoldable pub on_body :
    Handler → Env → Call → Option (Result ParseError (Option UsageData)) → M (Unit {0})
unfolding on_usage
on_body h env c (some (ok u)) = on_usage h env c u
on_body h env c (some (err e)) = skip
on_body h env c none = skip

-- ErrorHandler: the upstream failed, or its body broke off.
unfoldable pub upstream_failed : Handler → Call → String → M (Unit {0})
unfolding emit_event
upstream_failed h c e = do
  emit_event h (record {
    type = "upstream_timeout";
    workload_id = c.ident.workload_id;
    attributes = ("error", text e) ∷ [];
    severity = "error";
  })
  answer (
      error_response 504 "upstream_timeout" "system" "upstream_did_not_respond" "reject"
        "upstream_timeout")

unfoldable pub pass_body : Handler → Env → Call → ℕ → List Text → Option String → M (Unit {0})
unfolding on_body upstream_failed parse_usage
pass_body h env c status pieces (some e) = upstream_failed h c e
pass_body h env c status pieces none = do
  on_body h env c (parse_usage env.parse c.provider (joined pieces))
  answer (passed_on status pieces)

-- isSSEResponse
abbrev pub is_sse_response : Text → Bool
is_sse_response content_type = is_infix (codes "text/event-stream") content_type

-- ModifyResponse, and what the client gets.
unfoldable pub respond_with : Handler → Env → Call → Reply → M (Unit {0})
unfolding refund pass_stream pass_body upstream_failed
respond_with h env c (no_reply e) = upstream_failed h c e
respond_with h env c (reply status ct pieces broken) =
    if leb 500 status
    then (do refund h env c status; sent (passed_on status pieces) (cut_off broken))
    else if is_sse_response ct
    then pass_stream h env c status pieces broken (stream_parser h c)
    else pass_body h env c status pieces broken

-- The body that goes to the upstream.
unfoldable pub with_body : Injected → Text → (Text → M (Unit {0})) → M (Unit {0})
with_body panics body k = λ s. (s, panicked none)
with_body failed body k = k body
with_body (injected new) body k = k new

abbrev is_openai : Provider → Bool
is_openai Provider.open_ai = true
is_openai _ = false

-- The stream of OpenAI reports usage only on demand.
abbrev pub asks_usage : Handler → Call → Bool
asks_usage h c = c.streaming && is_openai c.provider && h.sse_extraction

unfoldable pub proxy_to : Handler → Env → Request → Call → Option Url → M (Unit {0})
unfolding with_body respond_with
proxy_to h env r c none = answer not_configured
proxy_to h env r c (some u) =
    if asks_usage h c
    then with_body (inject_stream_options env.parse env.marshal r.body) r.body
        (λ body. respond_with h env c (env.upstream u body))
    else respond_with h env c (env.upstream u r.body)

unfoldable pub proxy_with_enforcement : Handler → Env → Request → Call → M (Unit {0})
unfolding proxy_to
proxy_with_enforcement h env r c = proxy_to h env r c (resolve_upstream h env r)
