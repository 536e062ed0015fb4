-- ===== src/Proxy/TokenCount.antt =====
-- internal/proxy/tokencount.go. `parse` is the grammar of JSON texts, `none` for bytes that
-- json.Unmarshal rejects as no JSON; `marshal` writes a value back.
use koshi_runtime.Base.{Bool, true, false, Option, none, some, if◌then◌else◌, List, [], ◌∷◌}
use koshi_runtime.Base.Int.{ℤ, pos}
use koshi_runtime.Json.{
  Text, Json, null, bool, obj, Fields, end, field, codes, names, text_eq, int64_pointer,
  bool_pointer,
}
use koshi_runtime.Provider.Usage.{unmarshal}

pub record MaxTokens : Type 0 where
  pub max_tokens : Option ℤ
  pub max_new_tokens : Option ℤ

abbrev max_tokens_field : Text → Json → MaxTokens → MaxTokens × Bool
max_tokens_field k v r =
    if names "max_tokens" k
    then (let (n, bad) = int64_pointer v r.max_tokens in (record r { max_tokens = n }, bad))
    else if names "max_new_tokens" k
    then (let (n, bad) = int64_pointer v r.max_new_tokens in (record r { max_new_tokens = n }, bad))
    else (r, false)

abbrev stream_field : Text → Json → Option Bool → Option Bool × Bool
stream_field k v r = if names "stream" k then bool_pointer v r else (r, false)

unfoldable pub first_of : Option MaxTokens → ℤ
first_of none = pos 0
first_of (some r) = elim r.max_tokens [
  | some n ↦ n
  | none ↦ elim r.max_new_tokens [ some n ↦ n | none ↦ pos 0 ]
]

unfoldable is_set : Option (Option Bool) → Bool
is_set none = false
is_set (some r) = elim r [ some b ↦ b | none ↦ false ]

-- A map[string]json.RawMessage: keys are told apart by case, and the last entry of a key counts.
abbrev pub RawMap : Type 0
RawMap = List (Text × Json)

unfoldable pub put : Text → Json → RawMap → RawMap
put k v [] = (k, v) ∷ []
put k v ((j, w) ∷ m) = if text_eq j k then (k, v) ∷ m else (j, w) ∷ put k v m

unfoldable pub raw_map : Fields → RawMap → RawMap
unfolding put
raw_map end m = m
raw_map (field k v rest) m = raw_map rest (put k v m)

-- What injectStreamOptions does: it fails and leaves the body, writes a new one, or panics.
pub data Injected : Type 0 where
  failed panicked : Injected
  injected : Text → Injected

abbrev pub include_usage : Json
include_usage = obj (field (codes "include_usage") (bool true) end)

module _ (marshal : RawMap → Text) where
  -- json.Unmarshal takes null for a nil map, and a write to that panics.
  unfoldable pub inject_json : Option Json → Injected
  unfolding raw_map put
  inject_json (some null) = panicked
  inject_json (some (obj fs)) =
      injected (marshal (put (codes "stream_options") include_usage (raw_map fs [])))
  inject_json _ = failed

module _ (parse : Text → Option Json) where
  unfoldable pub extract_max_tokens : Text → ℤ
  unfolding first_of unmarshal
  extract_max_tokens [] = pos 0
  extract_max_tokens (c ∷ body) = first_of (
      unmarshal max_tokens_field (record { max_tokens = none; max_new_tokens = none })
        (parse (c ∷ body)))

  unfoldable pub is_streaming_request : Text → Bool
  unfolding is_set unmarshal
  is_streaming_request [] = false
  is_streaming_request (c ∷ body) = is_set (unmarshal stream_field none (parse (c ∷ body)))

unfoldable pub inject_stream_options : (Text → Option Json) → (RawMap → Text) → Text → Injected
unfolding inject_json
inject_stream_options parse marshal body = inject_json marshal (parse body)
