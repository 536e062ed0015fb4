-- ===== src/Proxy/Upstream/Stream.antt =====
-- A streamed answer on its way through internal/proxy/proxy.go and internal/proxy/sse.go.
mod Tests
use koshi_runtime.Base.{
  ℕ, ◌≤◌, ◌≡◌, String, Option, refl, sym, ap, ◌∙◌, some, List, [], ◌∷◌, ◌++◌, length,
}
use koshi_runtime.Json.{Text}
use koshi_runtime.Proxy.Anthropic.{new_accumulator}
use koshi_runtime.Proxy.Effects.{Handler, State, Env, sent, cut_off, ◌>>◌}
use koshi_runtime.Proxy.Sse.{Reader, anthropic, new_reader, max_line_buffer, scan, read, close}
use koshi_runtime.Proxy.Sse.Lines.{
  feed, feed-append, feed-IsPartial, cut, cut_id, IsPartial, scan-feed,
}
use koshi_runtime.Proxy.Sse.Summary.{
  text_of, AllWhole, summary, newest, reading, feed-text_of, fresh-IsPartial,
}
use koshi_runtime.Proxy.Upstream.{Call, joined, passed_on, read_all, on_usage, pass_stream}

module _ (env : Env) where
  -- Behind no piece is the unfinished line longer than the buffer may be.
  abbrev pub AllShort : List Text → Reader → Type 0
  AllShort [] r = Unit
  AllShort (p ∷ ps) r =
      (length (feed env.parse p r).buf ≤ max_line_buffer) × AllShort ps (feed env.parse p r)

  read_feeds :
      (p : Text) (r : Reader)
      → IsPartial env.parse r
      → length (feed env.parse p r).buf ≤ max_line_buffer
      → (read env.parse p r).0 ≡ feed env.parse p r
  unfolding read feed
  read_feeds [] r e short = refl
  read_feeds (c ∷ p) r e short =
      scan-feed env.parse (c ∷ p) r e ∙ cut_id env.parse (feed env.parse (c ∷ p) r) short

  read_all-feed :
      (ps : List Text) (r : Reader)
      → IsPartial env.parse r
      → AllShort ps r
      → read_all env ps r ≡ feed env.parse (joined ps) r
  unfolding read_all joined feed
  read_all-feed [] r e short = refl
  read_all-feed (p ∷ ps) r e (short, rest) =
      ap (read_all env ps) (read_feeds p r e short)
      ∙ read_all-feed ps (feed env.parse p r) (feed-IsPartial env.parse p r e) rest
      ∙ sym (feed-append env.parse p (joined ps) r)

  -- A streamed answer of Anthropic whose lines each end with a newline, in whatever pieces it
  -- comes that leave no unfinished line longer than the buffer may be, is passed on as it is,
  -- and the reservation is then reconciled with the summary of its events: the output of the
  -- latest final event, with the input of the latest start of a message before it. Where there
  -- is no such start the reservation stands. An answer that breaks off behind these lines is
  -- treated in the same way before its panic.
  pub pass_stream-summary :
      (h : Handler) (c : Call) (status : ℕ) (pieces : List Text) (broken : Option String)
      (ls : List Text) (s : State)
      → AllWhole ls
      → joined pieces ≡ text_of ls
      → AllShort pieces (new_reader (anthropic new_accumulator))
      → pass_stream h env c status pieces broken (some (anthropic new_accumulator)) s
        ≡ sent
            (passed_on status pieces)
            (on_usage h env c (summary (newest env.parse ls [])) >> cut_off broken)
            s
  unfolding pass_stream close
  pass_stream-summary h c status pieces broken ls s w whole short =
      ap (λ r. sent (passed_on status pieces) (on_usage h env c (close r).1 >> cut_off broken) s)
        (read_all-feed pieces (reading env.parse []) (fresh-IsPartial env.parse) short
          ∙ ap (λ t. feed env.parse t (reading env.parse [])) whole
          ∙ feed-text_of env.parse ls [] w)
