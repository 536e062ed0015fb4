-- ===== src/Provider.antt =====
-- internal/provider: registry.go and the parsers of openai.go, anthropic.go and google.go.
pub mod Usage
use koshi_runtime.Base.{
  ℕ, ◌+◌, Bool, true, false, ◌&&◌, ◌||◌, ◌==◌, leb, List, [], ◌∷◌, map, Option, none, some, String,
  if◌then◌else◌,
}
use koshi_runtime.Base.Int.{ℤ, pos}
use koshi_runtime.Json.{Text, codes}

-- The type `Type` of the package.
pub data Provider : Type 0 where
  unknown open_ai anthropic google : Provider

abbrev pub name : Provider → String
name Provider.open_ai = "openai"
name Provider.anthropic = "anthropic"
name Provider.google = "google"
name Provider.unknown = "unknown"

unfoldable pub default_max_tokens : Provider → ℤ
default_max_tokens Provider.open_ai = pos 4096
default_max_tokens Provider.anthropic = pos 8192
default_max_tokens Provider.google = pos 2048
default_max_tokens Provider.unknown = pos 4096

-- strings.ToLower at the letters whose lower case is an ASCII one; no test here reads another.
abbrev pub lower_code : ℕ → ℕ
lower_code c =
    if leb b'A' c && leb c b'Z'
    then c + 32
    else if c == 0x130
    then b'i'
    else if c == 0x212a
    then b'k'
    else c

unfoldable pub to_lower : Text → Text
to_lower s = map lower_code s

abbrev pub is_prefix : Text → Text → Bool
is_prefix [] s = true
is_prefix (p ∷ ps) [] = false
is_prefix (p ∷ ps) (c ∷ s) = p == c && is_prefix ps s

-- strings.Contains and bytes.Contains, the needle first.
unfoldable pub is_infix : Text → Text → Bool
is_infix p [] = is_prefix p []
is_infix p (c ∷ s) = is_prefix p (c ∷ s) || is_infix p s

-- What stands before the last occurrence of a code, if it occurs.
unfoldable pub before_last : ℕ → Text → Option Text
before_last c [] = none
before_last c (x ∷ s) = elim (before_last c s) [
  | some t ↦ some (x ∷ t)
  | none ↦ if x == c then some [] else none
]

-- The host without its port.
unfoldable pub strip_port : Text → Text
strip_port h = elim (before_last b':' h) [ some t ↦ t | none ↦ h ]

abbrev pub detect_lower : Text → Provider
detect_lower h =
    if is_infix (codes "openai.com") h
    then Provider.open_ai
    else if is_infix (codes "anthropic.com") h
    then Provider.anthropic
    else if is_infix (codes "googleapis.com") h
    then Provider.google
    else Provider.unknown

unfoldable pub detect_provider : Text → Provider
unfolding to_lower strip_port is_infix before_last
detect_provider host = detect_lower (strip_port (to_lower host))
