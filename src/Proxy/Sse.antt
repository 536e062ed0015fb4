-- ===== src/Proxy/Sse.antt =====
-- internal/proxy/sse.go: a reader that passes a stream through and looks for usage in its lines.
pub mod Lines
pub mod Summary
mod Tests
use koshi_runtime.Base.{
  ℕ, zero, suc, Bool, true, false, not, ◌&&◌, ◌||◌, ◌==◌, leb, ltb, List, [], ◌∷◌, ◌++◌, Option,
  none, some, length, if◌then◌else◌,
}
use koshi_runtime.Json.{Text, Json, codes, text_eq}
use koshi_runtime.Provider.{is_prefix, is_infix}
use koshi_runtime.Provider.Usage.{UsageData, SseUsage, parse_openai_sse_usage}
use koshi_runtime.Proxy.Anthropic.{Accumulator, parse_event}

-- sseParseFunc, with the state of the closure.
pub data SseParser : Type 0 where
  openai : SseParser
  anthropic : Accumulator → SseParser

-- tokenExtractingReader; the callback onUsage is the caller's, at close.
pub record Reader : Type 0 where
  pub buf : Text
  pub usage : Option UsageData
  pub parser : SseParser
  pub closed : Bool

abbrev pub max_line_buffer : ℕ
max_line_buffer = 8192

abbrev pub new_reader : SseParser → Reader
new_reader p = record { buf = []; usage = none; parser = p; closed = false }

-- bytes.TrimRight of the one code.
unfoldable pub trim_right : ℕ → Text → Text
trim_right c [] = []
trim_right c (x ∷ s) = elim (trim_right c s) [
  | [] ↦ if x == c then [] else x ∷ []
  | y ∷ r ↦ x ∷ y ∷ r
]

abbrev is_blank : ℕ → Bool
is_blank c = leb 9 c && leb c 13 || c == 32

unfoldable pub skip_blank : Text → Text
skip_blank [] = []
skip_blank (c ∷ s) = if is_blank c then skip_blank s else c ∷ s

unfoldable pub all_blank : Text → Bool
all_blank [] = true
all_blank (c ∷ s) = is_blank c && all_blank s

-- The payload that ends a stream, between ASCII space: bytes.Equal of bytes.TrimSpace(payload). In
-- other space it has no sentinel of usage either, so that its line is dropped all the same.
unfoldable pub drop_done : Text → Text → Option Text
drop_done [] s = some s
drop_done (p ∷ ps) [] = none
drop_done (p ∷ ps) (c ∷ s) = if p == c then drop_done ps s else none

unfoldable pub is_done : Text → Bool
unfolding skip_blank all_blank drop_done
is_done payload = elim (drop_done (codes "[DONE]") (skip_blank payload)) [
  | none ↦ false
  | some s ↦ all_blank s
]

-- The payload of a line that begins with "data: ".
abbrev payload_of : Text → Option Text
payload_of line = drop_done (codes "data: ") line

abbrev sentinel_usage : Text
sentinel_usage = codes "\"usage\""

abbrev sentinel_msg_type : Text
sentinel_msg_type = codes "\"type\":\"message_\""

module _ (parse : Text → Option Json) where
  unfoldable pub run_parser : Text → SseParser → SseParser × SseUsage
  unfolding parse_openai_sse_usage parse_event
  run_parser line openai = (openai, parse_openai_sse_usage parse line)
  run_parser line (anthropic a) = let (a', u) = parse_event parse line a in (anthropic a', u)

  -- What a final event with usage leaves in the reader.
  unfoldable pub take_usage : SseUsage → Option UsageData → Option UsageData
  take_usage (some u, true) old = some u
  take_usage _ old = old

  unfoldable pub process_payload : Text → Reader → Reader
  unfolding run_parser take_usage is_done is_infix
  process_payload payload r =
      if is_done payload
      then r
      else if not (is_infix sentinel_usage payload) && not (is_infix sentinel_msg_type payload)
      then r
      else (let (p, u) = run_parser payload r.parser in
          record r { parser = p; usage = take_usage u r.usage })

  unfoldable pub process_line : Text → Reader → Reader
  unfolding process_payload drop_done trim_right
  process_line line r = elim (payload_of (trim_right b'\r' line)) [
    | none ↦ r
    | some payload ↦ process_payload payload r
  ]

-- The bytes up to the first newline and those behind it.
unfoldable pub split_line : Text → Option (Text × Text)
split_line [] = none
split_line (c ∷ s) =
    if c == b'\n'
    then some ([], s)
    else (elim (split_line s) [ none ↦ none | some (l, r) ↦ some (c ∷ l, r) ])

module _ (parse : Text → Option Json) where
  -- The loop of scan, on fuel: each round takes a line off the buffer.
  unfoldable pub scan_loop : ℕ → Reader → Reader
  scan_loop zero r = r
  scan_loop (suc fuel) r = elim (split_line r.buf) [
    | none ↦ if ltb max_line_buffer (length r.buf) then record r { buf = [] } else r
    | some (line, rest) ↦ scan_loop fuel (process_line parse line (record r { buf = rest }))
  ]

  unfoldable pub scan : Text → Reader → Reader
  unfolding scan_loop
  scan bytes r = let buf = r.buf ++ bytes in scan_loop (suc (length buf)) (record r { buf = buf })

  -- Read hands on what the inner reader gave, and scans it if there is any.
  unfoldable pub read : Text → Reader → Reader × Text
  unfolding scan
  read [] r = (r, [])
  read (c ∷ p) r = (scan (c ∷ p) r, c ∷ p)

-- Close: the usage to report, at the first call only.
unfoldable pub close : Reader → Reader × Option UsageData
close r = if r.closed then (r, none) else (record r { closed = true }, r.usage)
