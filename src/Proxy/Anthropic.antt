-- ===== src/Proxy/Anthropic.antt =====
-- internal/proxy/anthropic_sse.go: usage of an Anthropic stream over its two events.
use koshi_runtime.Base.{Bool, true, false, Option, none, some, if◌then◌else◌}
use koshi_runtime.Base.Int.{ℤ, pos, add64}
use koshi_runtime.Json.{Text, Json}
use koshi_runtime.Provider.Usage.{SseUsage, parse_anthropic_sse_usage}

pub record Accumulator : Type 0 where
  pub input_tokens : ℤ
  pub has_input : Bool

abbrev pub new_accumulator : Accumulator
new_accumulator = record { input_tokens = pos 0; has_input = false }

-- Parse after the provider's parser has read the line.
unfoldable pub accumulate : SseUsage → Accumulator → Accumulator × SseUsage
accumulate (none, final) a = (a, (none, false))
accumulate (some u, false) a =
    (record { input_tokens = u.input_tokens; has_input = true }, (none, false))
accumulate (some u, true) a =
    if a.has_input
    then (
      a,
      (
        some (record {
          input_tokens = a.input_tokens;
          output_tokens = u.output_tokens;
          total_tokens = add64 a.input_tokens u.output_tokens;
        }),
        true,
      ),
    )
    else (a, (none, false))

unfoldable pub parse_event : (Text → Option Json) → Text → Accumulator → Accumulator × SseUsage
unfolding accumulate
parse_event parse line a = accumulate (parse_anthropic_sse_usage parse line) a
