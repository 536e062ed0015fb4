-- ===== src/Proxy/Sse/Tests.antt =====
-- The reader of internal/proxy/sse.go on two chunks of a stream.
use koshi_runtime.Base.{◌≡◌, refl, some, ◌++◌, Option, arith}
use koshi_runtime.Json.{Text, Json, null, codes}
use koshi_runtime.Proxy.Sse.{openai, new_reader, split_line, scan, scan_loop}
use koshi_runtime.Proxy.Sse.Lines.{feed, cut, IsPartial, scan-feed, scan_terminates}

abbrev no_usage : Text → Option Json
no_usage _ = some null

abbrev first : Text
first = codes "data: {\"usage\":"

abbrev second : Text
second = codes "null}\n\ndata: [DO"

fresh-IsPartial : IsPartial no_usage (new_reader openai)
unfolding split_line
fresh-IsPartial = refl

scan-feed_example :
    scan no_usage second (new_reader openai)
    ≡ cut no_usage (feed no_usage second (new_reader openai))
scan-feed_example = scan-feed no_usage second (new_reader openai) fresh-IsPartial

scan_terminates_example :
    (scan_loop no_usage 100 (record (new_reader openai) { buf = (new_reader openai).buf ++ second })
      ≡ scan no_usage second (new_reader openai))
    × IsPartial no_usage (scan no_usage second (new_reader openai))
scan_terminates_example = scan_terminates no_usage 100 second (new_reader openai) (omega arith)
