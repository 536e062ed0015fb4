-- ===== src/Inject/Escape.antt =====
-- escapeJSONPointer of internal/inject/webhook.go against the reading of RFC 6901.
pub mod Rounds
use Prim.Native.Char.{Char, code}
use Prim.Native.String.{[], ◌∷◌}
use koshi_runtime.Base.{String, ◌<>◌, ◌==◌, if◌then◌else◌}

-- What one character becomes.
unfoldable pub escape_char : Char → String
escape_char c = if code c == b'~' then "~0" else if code c == b'/' then "~1" else c ∷ []

unfoldable pub escape_json_pointer : String → String
unfolding escape_char
escape_json_pointer [] = ""
escape_json_pointer (c ∷ s) = escape_char c <> escape_json_pointer s
