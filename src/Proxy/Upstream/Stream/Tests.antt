-- ===== src/Proxy/Upstream/Stream/Tests.antt =====
-- A stream of Anthropic in two pieces, through internal/proxy/proxy.go.
use koshi_runtime.Base.{
  ◌≡◌, refl, true, false, some, none, List, [], ◌∷◌, Option, if◌then◌else◌, arith,
}
use koshi_runtime.Base.Int.{pos, leb_ℤ, add64, wrap64, ◌+ℤ◌}
use koshi_runtime.Budget.Tracker.Reserve.{still}
use koshi_runtime.Identity.{by_header, no_identity}
use koshi_runtime.Policy.{override}
use koshi_runtime.Config.{sidecar_baseline}
use koshi_runtime.Json.{
  Json, obj, field, end, int, str, Text, codes, text_eq, decode_fields, pointer,
}
use koshi_runtime.Provider.{Provider, is_infix}
use koshi_runtime.Provider.Usage.{parse_anthropic_sse_usage}
use koshi_runtime.Proxy.Anthropic.{new_accumulator, parse_event}
use koshi_runtime.Proxy.Effects.{Handler, State, Env, reply, sent, cut_off, ◌>>◌}
use koshi_runtime.Proxy.Sse.{
  anthropic, new_reader, drop_done, trim_right, is_done, split_line, process_line, process_payload,
  run_parser, take_usage,
}
use koshi_runtime.Proxy.Sse.Lines.{feed, feed_byte}
use koshi_runtime.Proxy.Sse.Summary.{text_of, AllWhole, summary, newest, event_of}
use koshi_runtime.Proxy.Upstream.{Call, joined, passed_on, on_usage, pass_stream}
use koshi_runtime.Proxy.Upstream.Stream.{AllShort, pass_stream-summary}

abbrev start_text : Text
start_text = codes "{\"usage\":7}"

-- The two events, as they are decoded.
abbrev decode : Text → Option Json
decode t =
    if text_eq t start_text
    then some (
        obj (
          field (codes "type") (str (codes "message_start")) (
            field (codes "message")
              (obj
                (field (codes "usage") (obj (field (codes "input_tokens") (int (pos 7)) end)) end))
              end)))
    else some (
        obj (
          field (codes "type") (str (codes "message_delta"))
            (field (codes "usage") (obj (field (codes "output_tokens") (int (pos 5)) end)) end)))

abbrev lines : List Text
lines = codes "data: {\"usage\":7}" ∷ codes "data: {\"usage\":5}" ∷ []

-- The cut is in the first line.
abbrev pieces : List Text
pieces = codes "data: {\"us" ∷ codes "age\":7}\ndata: {\"usage\":5}\n" ∷ []

abbrev env : Env
env = record {
  parse = decode;
  marshal = λ _. [];
  parse_url = λ _. none;
  accepts = λ n. leb_ℤ (pos 0) n;
  upstream = λ _ _. reply 200 (codes "text/event-stream") pieces none;
  readings = still 0;
  record_add = 0;
  record_total = 0;
  panic_text = "";
  stack = "";
}

whole : AllWhole lines
unfolding split_line
whole = (refl, (refl, tt))

same_text : joined pieces ≡ text_of lines
unfolding joined
same_text = refl

short : AllShort env pieces (new_reader (anthropic new_accumulator))
unfolding feed feed_byte process_line process_payload drop_done trim_right is_done is_infix
    run_parser parse_event parse_anthropic_sse_usage decode_fields pointer take_usage
short = (omega arith, (omega arith, tt))

-- 7 tokens went in and 5 came out.
summed :
    summary (newest decode lines [])
    ≡ some (record { input_tokens = pos 7; output_tokens = pos 5; total_tokens = pos 12 })
unfolding event_of drop_done trim_right is_done is_infix parse_anthropic_sse_usage decode_fields
    pointer add64 wrap64 ◌+ℤ◌
summed = refl

abbrev handler : Handler
handler = record {
  resolver = by_header "x-genops-workload-id";
  policy_engine = override sidecar_baseline;
  upstreams = [];
  sse_extraction = true;
  version = "1";
  genops_spec_version = "0.1.0";
  mode = "enforcement";
  listener_accounting_key = "";
}

abbrev call : Call
call = record {
  ident = no_identity;
  policy_id = "strict";
  provider = Provider.anthropic;
  reserved = pos 30;
  streaming = true;
  key = "agent";
}

abbrev state : State
state = record { tracker = []; degraded = false; events = []; metrics = [] }

pass_stream-summary_example :
    pass_stream handler env call 200 pieces none (some (anthropic new_accumulator)) state
    ≡ sent
        (passed_on 200 pieces)
        (on_usage handler env call (summary (newest decode lines [])) >> cut_off none)
        state
pass_stream-summary_example =
    pass_stream-summary env handler call 200 pieces none lines state whole same_text short
