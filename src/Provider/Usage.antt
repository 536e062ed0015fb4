-- ===== src/Provider/Usage.antt =====
-- Token usage in the bodies and the stream events of the providers:
-- internal/provider/openai.go, anthropic.go, google.go, and GetParser of registry.go.
-- `parse` is the grammar of JSON texts: `none` for bytes that json.Unmarshal rejects as no JSON.
use koshi_runtime.Base.{Bool, true, false, Option, none, some, if◌then◌else◌, []}
use koshi_runtime.Base.Int.{ℤ, pos, add64}
use koshi_runtime.Base.Result.{Result, ok, err}
use koshi_runtime.Json.{Text, Json, codes, names, text_eq, int64, text, decode_struct, pointer}
use koshi_runtime.Provider.{Provider}

pub record UsageData : Type 0 where
  pub input_tokens : ℤ
  pub output_tokens : ℤ
  pub total_tokens : ℤ

pub data ParseError : Type 0 where
  bad_json not_implemented : ParseError

-- openAIUsage
pub record OpenAiUsage : Type 0 where
  pub prompt_tokens : ℤ
  pub completion_tokens : ℤ
  pub total_tokens : ℤ

abbrev zero_openai : OpenAiUsage
zero_openai = record { prompt_tokens = pos 0; completion_tokens = pos 0; total_tokens = pos 0 }

abbrev openai_field : Text → Json → OpenAiUsage → OpenAiUsage × Bool
openai_field k v u =
    if names "prompt_tokens" k
    then (let (n, bad) = int64 v u.prompt_tokens in (record u { prompt_tokens = n }, bad))
    else if names "completion_tokens" k
    then (let (n, bad) = int64 v u.completion_tokens in (record u { completion_tokens = n }, bad))
    else if names "total_tokens" k
    then (let (n, bad) = int64 v u.total_tokens in (record u { total_tokens = n }, bad))
    else (u, false)

-- openAIResponse, by its one field.
abbrev openai_response : Text → Json → Option OpenAiUsage → Option OpenAiUsage × Bool
openai_response k v r = if names "usage" k then pointer zero_openai openai_field v r else (r, false)

-- anthropicUsage
pub record AnthropicUsage : Type 0 where
  pub input_tokens : ℤ
  pub output_tokens : ℤ

abbrev zero_anthropic : AnthropicUsage
zero_anthropic = record { input_tokens = pos 0; output_tokens = pos 0 }

abbrev anthropic_field : Text → Json → AnthropicUsage → AnthropicUsage × Bool
anthropic_field k v u =
    if names "input_tokens" k
    then (let (n, bad) = int64 v u.input_tokens in (record u { input_tokens = n }, bad))
    else if names "output_tokens" k
    then (let (n, bad) = int64 v u.output_tokens in (record u { output_tokens = n }, bad))
    else (u, false)

-- anthropicResponse and anthropicSSEMessage, by their one field.
abbrev anthropic_response : Text → Json → Option AnthropicUsage → Option AnthropicUsage × Bool
anthropic_response k v r =
    if names "usage" k then pointer zero_anthropic anthropic_field v r else (r, false)

-- anthropicSSEEvent; a message is its usage.
pub record AnthropicEvent : Type 0 where
  pub type : Text
  pub message : Option (Option AnthropicUsage)
  pub usage : Option AnthropicUsage

abbrev zero_event : AnthropicEvent
zero_event = record { type = []; message = none; usage = none }

abbrev anthropic_event : Text → Json → AnthropicEvent → AnthropicEvent × Bool
anthropic_event k v e =
    if names "type" k
    then (let (t, bad) = text v e.type in (record e { type = t }, bad))
    else if names "message" k
    then (let (m, bad) = pointer none anthropic_response v e.message in
        (record e { message = m }, bad))
    else if names "usage" k
    then (let (u, bad) = pointer zero_anthropic anthropic_field v e.usage in
        (record e { usage = u }, bad))
    else (e, false)

-- json.Unmarshal of a parsed text into a fresh struct.
unfoldable pub unmarshal {ℓ} :
    {S : Type ℓ} → (Text → Json → S → S × Bool) → S → Option Json → Option S
unfolding decode_struct
unmarshal on zero none = none
unmarshal on zero (some j) = let (s, bad) = decode_struct on j zero in if bad then none else some s

abbrev openai_usage : OpenAiUsage → UsageData
openai_usage u = record {
  input_tokens = u.prompt_tokens;
  output_tokens = u.completion_tokens;
  total_tokens = u.total_tokens;
}

abbrev anthropic_usage : AnthropicUsage → UsageData
anthropic_usage u = record {
  input_tokens = u.input_tokens;
  output_tokens = u.output_tokens;
  total_tokens = add64 u.input_tokens u.output_tokens;
}

-- (usage, isFinal); the error result is always nil.
abbrev pub SseUsage : Type 0
SseUsage = Option UsageData × Bool

unfoldable pub openai_sse : Option (Option OpenAiUsage) → SseUsage
openai_sse (some (some u)) = (some (openai_usage u), true)
openai_sse (some none) = (none, false)
openai_sse none = (none, false)

unfoldable pub message_start : Option (Option AnthropicUsage) → SseUsage
message_start (some (some u)) = (
  some (record { input_tokens = u.input_tokens; output_tokens = pos 0; total_tokens = pos 0 }),
  false,
)
message_start (some none) = (none, false)
message_start none = (none, false)

unfoldable pub message_delta : Option AnthropicUsage → SseUsage
message_delta (some u) = (
  some (record { input_tokens = pos 0; output_tokens = u.output_tokens; total_tokens = pos 0 }),
  true,
)
message_delta none = (none, false)

unfoldable pub anthropic_sse : Option AnthropicEvent → SseUsage
unfolding message_start message_delta
anthropic_sse none = (none, false)
anthropic_sse (some e) =
    if text_eq e.type (codes "message_start")
    then message_start e.message
    else if text_eq e.type (codes "message_delta")
    then message_delta e.usage
    else (none, false)

-- A parser's result from the decoded response: `ok none` where it has no usage.
unfoldable pub body_usage {ℓ} :
    {U : Type ℓ} → (U → UsageData) → Option (Option U) → Result ParseError (Option UsageData)
body_usage f none = err bad_json
body_usage f (some none) = ok none
body_usage f (some (some u)) = ok (some (f u))

module _ (parse : Text → Option Json) where
  unfoldable pub parse_openai_sse_usage : Text → SseUsage
  unfolding openai_sse unmarshal
  parse_openai_sse_usage bytes = openai_sse (unmarshal openai_response none (parse bytes))

  unfoldable pub parse_anthropic_sse_usage : Text → SseUsage
  unfolding anthropic_sse unmarshal
  parse_anthropic_sse_usage bytes =
      anthropic_sse (unmarshal anthropic_event zero_event (parse bytes))

  -- GetParser and ParseUsage; `none` where the provider has no parser.
  unfoldable pub parse_usage : Provider → Text → Option (Result ParseError (Option UsageData))
  unfolding body_usage unmarshal
  parse_usage Provider.open_ai bytes =
      some (body_usage openai_usage (unmarshal openai_response none (parse bytes)))
  parse_usage Provider.anthropic bytes =
      some (body_usage anthropic_usage (unmarshal anthropic_response none (parse bytes)))
  parse_usage Provider.google bytes = some (err not_implemented)
  parse_usage Provider.unknown bytes = none
