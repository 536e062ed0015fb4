-- ===== src/Proxy/Sse/Summary.antt =====
-- What the reader of internal/proxy/sse.go makes of a whole Anthropic stream, with the accumulator
-- of internal/proxy/anthropic_sse.go.
use koshi_runtime.Base.{
  ◌≡◌, refl, ap, ◌∙◌, true, false, not, ◌&&◌, Bool-cases, Option-cases, inl, inr, List, [], ◌∷◌,
  ◌++◌, Option, none, some, if◌then◌else◌, arith,
}
use koshi_runtime.Base.Int.{ℤ, add64}
use koshi_runtime.Json.{Text, Json}
use koshi_runtime.Provider.{is_infix}
use koshi_runtime.Provider.Usage.{UsageData, SseUsage, parse_anthropic_sse_usage}
use koshi_runtime.Proxy.Anthropic.{Accumulator, new_accumulator, accumulate, parse_event}
use koshi_runtime.Proxy.Sse.{
  anthropic, Reader, new_reader, is_done, payload_of, trim_right, sentinel_usage, sentinel_msg_type,
  run_parser, take_usage, process_payload, process_line, split_line, scan, close,
}
use koshi_runtime.Proxy.Sse.Lines.{
  feed, feed-append, feed_partial, ends, cut, IsPartial, cut_id, scan-feed,
}

-- The text of a stream of lines.
abbrev pub text_of : List Text → Text
text_of [] = []
text_of (l ∷ ls) = l ++ (b'\n' ∷ text_of ls)

-- No line has a newline in it.
abbrev pub AllWhole : List Text → Type 0
AllWhole [] = Unit
AllWhole (l ∷ ls) = (split_line l ≡ none) × AllWhole ls

-- The input tokens of the latest start of a message, among events of which the newest is first.
abbrev pub latest_start : List SseUsage → Option ℤ
latest_start [] = none
latest_start ((some u, false) ∷ earlier) = some u.input_tokens
latest_start (_ ∷ earlier) = latest_start earlier

abbrev pub total_of : UsageData → Option ℤ → Option UsageData
total_of u none = none
total_of u (some n) = some (record {
  input_tokens = n;
  output_tokens = u.output_tokens;
  total_tokens = add64 n u.output_tokens;
})

-- The usage of a stream, from its events with the newest first: the output of the latest event
-- that is final, with the input of the latest start before it; none where there is no such start.
abbrev pub summary : List SseUsage → Option UsageData
summary [] = none
summary ((some u, true) ∷ earlier) = total_of u (latest_start earlier)
summary (_ ∷ earlier) = summary earlier

no_summary : (evs : List SseUsage) → latest_start evs ≡ none → summary evs ≡ none
no_summary [] e = refl
no_summary ((some u, true) ∷ earlier) e = rw e refl
no_summary ((some u, false) ∷ earlier) e = cc
no_summary ((none, b) ∷ earlier) e = no_summary earlier e

-- The accumulator that has seen this start.
abbrev having : Option ℤ → Accumulator
having none = new_accumulator
having (some n) = record { input_tokens = n; has_input = true }

module _ (parse : Text → Option Json) where
  -- One event after others.
  accumulate-summary :
      (ev : SseUsage) (seen : List SseUsage)
      → let (a, u) = accumulate ev (having (latest_start seen)) in
        (a ≡ having (latest_start (ev ∷ seen)))
        × (take_usage parse u (summary seen) ≡ summary (ev ∷ seen))
  unfolding accumulate take_usage
  accumulate-summary (none, b) seen = (refl, refl)
  accumulate-summary (some u, false) seen = (refl, refl)
  accumulate-summary (some u, true) seen = elim (Option-cases (latest_start seen)) [
    | inl e ↦ rw e (refl, no_summary seen e)
    | inr (n, e) ↦ rw e (refl, refl)
  ]

  -- The event of a line: lines without a payload, without a sign of usage, and the end of the stream
  -- have none.
  unfoldable pub event_of : Text → SseUsage
  event_of line = elim (payload_of (trim_right b'\r' line)) [
    | none ↦ (none, false)
    | some p ↦
        if is_done p
        then (none, false)
        else if not (is_infix sentinel_usage p) && not (is_infix sentinel_msg_type p)
        then (none, false)
        else parse_anthropic_sse_usage parse p
  ]

  -- The events of some lines behind those that were seen, with the newest first.
  abbrev pub newest : List Text → List SseUsage → List SseUsage
  newest [] seen = seen
  newest (l ∷ ls) seen = newest ls (event_of l ∷ seen)

  -- The reader that has seen these events, between two lines.
  abbrev pub reading : List SseUsage → Reader
  reading seen = record {
    buf = [];
    usage = summary seen;
    parser = anthropic (having (latest_start seen));
    closed = false;
  }

  payload_read :
      (p : Text) (seen : List SseUsage)
      → let (q, u) = run_parser parse p (anthropic (having (latest_start seen))) in
        record (reading seen) { parser = q; usage = take_usage parse u (summary seen) }
        ≡ reading (parse_anthropic_sse_usage parse p ∷ seen)
  unfolding run_parser parse_event
  payload_read p seen =
      let (a, u) = accumulate-summary (parse_anthropic_sse_usage parse p) seen in rw (a, u) refl

  line_read :
      (line : Text) (seen : List SseUsage)
      → process_line parse line (reading seen) ≡ reading (event_of line ∷ seen)
  unfolding process_line process_payload event_of
  line_read line seen = elim (Option-cases (payload_of (trim_right b'\r' line))) [
    | inl e ↦ rw (process_line, event_of, e) refl
    | inr (p, e) ↦ elim (Bool-cases (is_done p)) [
      | inl d ↦ rw (process_line, event_of, e, process_payload, d) refl
      | inr d ↦
          elim (Bool-cases
            (not (is_infix sentinel_usage p) && not (is_infix sentinel_msg_type p))) [
              | inl f ↦ rw (process_line, event_of, e, process_payload, d, f) refl
              | inr f ↦ rw (process_line, event_of, e, process_payload, d, f) (payload_read p seen)
            ]
    ]
  ]

  pub feed-text_of :
      (ls : List Text) (seen : List SseUsage)
      → AllWhole ls
      → feed parse (text_of ls) (reading seen) ≡ reading (newest ls seen)
  unfolding feed
  feed-text_of [] seen w = refl
  feed-text_of (l ∷ ls) seen (w, ws) =
      feed-append parse l (b'\n' ∷ text_of ls) (reading seen)
      ∙ ap (feed parse (b'\n' ∷ text_of ls)) (feed_partial parse l [] (reading seen) w)
      ∙ ap (feed parse (text_of ls)) (ends parse b'\n' l (reading seen) refl ∙ line_read l seen)
      ∙ feed-text_of ls (event_of l ∷ seen) ws

  pub fresh-IsPartial : IsPartial parse (reading [])
  unfolding split_line
  fresh-IsPartial = refl

  -- Where each line of an Anthropic stream ends with a newline, the usage that Close reports is the
  -- summary of its events: the output of the latest final event, with the input of the latest
  -- start of a message before it, and none where there is no such start.
  pub close-summary :
      (ls : List Text)
      → AllWhole ls
      → (close (scan parse (text_of ls) (new_reader (anthropic new_accumulator)))).1
        ≡ summary (newest ls [])
  unfolding close
  close-summary ls w =
      ap (λ r. (close r).1)
        (scan-feed parse (text_of ls) (reading []) (fresh-IsPartial)
          ∙ ap (cut parse) (feed-text_of ls [] w)
          ∙ cut_id parse (reading (newest ls [])) (omega arith))
