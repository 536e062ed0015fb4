-- ===== src/Proxy/Sse/Lines.antt =====
-- The reader of internal/proxy/sse.go against one that takes a stream byte by byte.
use koshi_runtime.Base.{
  ℕ, zero, suc, ◌<◌, ◌≤◌, ◌≡◌, refl, sym, ap, ◌∙◌, true, false, not, ◌&&◌, ◌==◌, ltb, Bool-cases,
  Option-cases, inl, inr, [], ◌∷◌, ◌++◌, Option, none, some, length, if◌then◌else◌, arith,
}
use mathlib.Core.Path.{subst}
use mathlib.Core.List.{append_assoc, append-nil}
use mathlib.Core.Option.{some-injective, some-ne-none, none-ne-some}
use koshi_runtime.Json.{Text, Json}
use koshi_runtime.Provider.{is_infix}
use koshi_runtime.Proxy.Sse.{
  Reader, max_line_buffer, is_done, process_payload, process_line, split_line, scan_loop, scan,
  payload_of, trim_right, sentinel_usage, sentinel_msg_type,
}

module _ (parse : Text → Option Json) where
  -- A byte ends the line or joins it.
  unfoldable pub feed_byte : ℕ → Reader → Reader
  unfolding process_line
  feed_byte c r =
      if c == b'\n'
      then process_line parse r.buf (record r { buf = [] })
      else record r { buf = r.buf ++ (c ∷ []) }

  unfoldable pub feed : Text → Reader → Reader
  unfolding feed_byte
  feed [] r = r
  feed (c ∷ s) r = feed s (feed_byte c r)

  -- What the end of a chunk does to a line that is too long.
  abbrev pub cut : Reader → Reader
  cut r = if ltb max_line_buffer (length r.buf) then record r { buf = [] } else r

  payload_buf :
      (payload t : Text) (r : Reader)
      → process_payload parse payload (record r { buf = t })
        ≡ record (process_payload parse payload r) { buf = t }
  unfolding process_payload
  payload_buf payload t r = elim (Bool-cases (is_done payload)) [
    | inl d ↦ rw (process_payload, d) refl
    | inr d ↦
        elim (Bool-cases
          (not (is_infix sentinel_usage payload) && not (is_infix sentinel_msg_type payload))) [
            | inl f ↦ rw (process_payload, d, f) refl
            | inr f ↦ rw (process_payload, d, f) refl
          ]
  ]

  pub line_buf :
      (line t : Text) (r : Reader)
      → process_line parse line (record r { buf = t })
        ≡ record (process_line parse line r) { buf = t }
  unfolding process_line
  line_buf line t r = elim (Option-cases (payload_of (trim_right b'\r' line))) [
    | inl e ↦ rw (process_line, e) refl
    | inr (p, e) ↦ rw (process_line, e) (payload_buf p t r)
  ]

  pub feed-append : (a b : Text) (r : Reader) → feed (a ++ b) r ≡ feed b (feed a r)
  unfolding feed
  feed-append [] b r = refl
  feed-append (c ∷ a) b r = feed-append a b (feed_byte c r)

  joins :
      (c : ℕ) (p : Text) (r : Reader)
      → (c == b'\n') ≡ false
      → feed_byte c (record r { buf = p }) ≡ record r { buf = p ++ (c ∷ []) }
  unfolding feed_byte
  joins c p r e = rw (feed_byte, e) refl

  pub ends :
      (c : ℕ) (p : Text) (r : Reader)
      → (c == b'\n') ≡ true
      → feed_byte c (record r { buf = p }) ≡ process_line parse p (record r { buf = [] })
  unfolding feed_byte
  ends c p r e = rw (feed_byte, e) refl

  -- Bytes without a newline join the line.
  pub feed_partial :
      (s p : Text) (r : Reader)
      → split_line s ≡ none
      → feed s (record r { buf = p }) ≡ record r { buf = p ++ s }
  unfolding feed split_line
  feed_partial [] p r e = ap (λ b. record r { buf = b }) (sym (append-nil p))
  feed_partial (c ∷ s) p r e = elim (Bool-cases (c == b'\n')) [
    | inl n ↦ absurd (some-ne-none ([], s) (sym (rw (split_line, n) refl) ∙ e))
    | inr n ↦ elim (Option-cases (split_line s)) [
      | inl q ↦
          ap (feed s) (joins c p r n)
          ∙ feed_partial s (p ++ (c ∷ [])) r q
          ∙ ap (λ b. record r { buf = b }) (append_assoc p (c ∷ []) s)
      | inr ((l, t), q) ↦ absurd (some-ne-none (c ∷ l, t) (sym (rw (split_line, n, q) refl) ∙ e))
    ]
  ]

  -- A line and its newline are one line for the parser.
  feed_line :
      (s p l t : Text) (r : Reader)
      → split_line s ≡ some (l, t)
      → (feed s (record r { buf = p })
          ≡ feed t (process_line parse (p ++ l) (record r { buf = [] })))
        × (length t < length s)
  unfolding feed split_line
  feed_line [] p l t r e = absurd (none-ne-some (l, t) e)
  feed_line (c ∷ s) p l t r e = elim (Bool-cases (c == b'\n')) [
    | inl n ↦
        let same : ([], s) ≡ (l, t) =
          some-injective ([], s) (l, t) (sym (rw (split_line, n) refl) ∙ e) in
        rw (sym (ap (λ x. x.0) same), sym (ap (λ x. x.1) same))
          (
            ap (feed s) (
                ends c p r n
                ∙ ap (λ x. process_line parse x (record r { buf = [] })) (sym (append-nil p))),
            omega arith,
          )
    | inr n ↦ elim (Option-cases (split_line s)) [
      | inl q ↦ absurd (none-ne-some (l, t) (sym (rw (split_line, n, q) refl) ∙ e))
      | inr ((l', t'), q) ↦
          let (step, shorter) = feed_line s (p ++ (c ∷ [])) l' t' r q in
          let same : (c ∷ l', t') ≡ (l, t) =
            some-injective (c ∷ l', t') (l, t) (sym (rw (split_line, n, q) refl) ∙ e) in
          rw (sym (ap (λ x. x.0) same), sym (ap (λ x. x.1) same))
            (
              ap (feed s) (joins c p r n)
                  ∙ step
                  ∙ ap (λ x. feed t' (process_line parse x (record r { buf = [] })))
                      (append_assoc p (c ∷ []) l'),
              omega (arith, shorter),
            )
    ]
  ]

  no_line :
      (fuel : ℕ) (s : Text) (r : Reader)
      → split_line s ≡ none
      → scan_loop parse (suc fuel) (record r { buf = s }) ≡ cut (record r { buf = s })
  unfolding scan_loop
  no_line fuel s r e = rw (scan_loop, e) refl

  a_line :
      (fuel : ℕ) (s l t : Text) (r : Reader)
      → split_line s ≡ some (l, t)
      → scan_loop parse (suc fuel) (record r { buf = s })
        ≡ scan_loop parse fuel (record (process_line parse l r) { buf = t })
  unfolding scan_loop
  a_line fuel s l t r e = rw (scan_loop, e) (ap (scan_loop parse fuel) (line_buf l t r))

  -- The loop of scan comes to the same as the bytes one by one, on fuel for each of them.
  scan_loop-feed :
      (fuel : ℕ) (s : Text) (r : Reader)
      → length s < fuel
      → scan_loop parse fuel (record r { buf = s }) ≡ cut (feed s (record r { buf = [] }))
  scan_loop-feed zero s r h = absurd (omega arith)
  scan_loop-feed (suc fuel) s r h = elim (Option-cases (split_line s)) [
    | inl e ↦ no_line fuel s r e ∙ ap cut (sym (feed_partial s [] r e))
    | inr ((l, t), e) ↦
        let (step, shorter) = feed_line s [] l t r e in
        a_line fuel s l t r e
        ∙ scan_loop-feed fuel t (process_line parse l r) (omega (arith, shorter))
        ∙ ap (λ x. cut (feed t x)) (sym (line_buf l [] r))
        ∙ ap cut (sym step)
  ]

  -- A reader that waits for the rest of a line.
  abbrev pub IsPartial : Reader → Type 0
  IsPartial r = split_line r.buf ≡ none

  -- On a reader that waits for the rest of a line, scan of a chunk comes to the same as the
  -- reader that takes it byte by byte, followed by the drop of an unfinished line that is too
  -- long; the loop has fuel for every line.
  pub scan-feed :
      (bytes : Text) (r : Reader) → IsPartial r → scan parse bytes r ≡ cut (feed bytes r)
  unfolding scan
  scan-feed bytes r e =
      scan_loop-feed (suc (length (r.buf ++ bytes))) (r.buf ++ bytes) r (omega arith)
      ∙ ap cut (feed-append r.buf bytes (record r { buf = [] }))
      ∙ ap (λ x. cut (feed bytes x)) (feed_partial r.buf [] r e)

  split_join :
      (s : Text) (c : ℕ)
      → split_line s ≡ none
      → (c == b'\n') ≡ false
      → split_line (s ++ (c ∷ [])) ≡ none
  unfolding split_line
  split_join [] c e n = rw n refl
  split_join (x ∷ s) c e n = elim (Bool-cases (x == b'\n')) [
    | inl m ↦ absurd (some-ne-none ([], s) (sym (rw (split_line, m) refl) ∙ e))
    | inr m ↦ elim (Option-cases (split_line s)) [
      | inl q ↦ rw (m, split_join s c q n) refl
      | inr ((l, t), q) ↦ absurd (some-ne-none (x ∷ l, t) (sym (rw (split_line, m, q) refl) ∙ e))
    ]
  ]

  feed_byte-IsPartial : (c : ℕ) (r : Reader) → IsPartial r → IsPartial (feed_byte c r)
  unfolding feed_byte split_line
  feed_byte-IsPartial c r e = elim (Bool-cases (c == b'\n')) [
    | inl n ↦ rw (feed_byte, n, line_buf r.buf [] r) refl
    | inr n ↦ rw (feed_byte, n) (split_join r.buf c e n)
  ]

  pub feed-IsPartial : (s : Text) (r : Reader) → IsPartial r → IsPartial (feed s r)
  unfolding feed
  feed-IsPartial [] r e = e
  feed-IsPartial (c ∷ s) r e = feed-IsPartial s (feed_byte c r) (feed_byte-IsPartial c r e)

  pub cut_id : (r : Reader) → length r.buf ≤ max_line_buffer → cut r ≡ r
  cut_id r h = ground arith

  -- How a stream is cut into chunks does not matter: where the line that is unfinished between
  -- two chunks is within the limit, scanning them one after the other comes to the same as
  -- scanning both at once.
  scan-append :
      (a b : Text) (r : Reader)
      → IsPartial r
      → length (feed a r).buf ≤ max_line_buffer
      → scan parse b (scan parse a r) ≡ scan parse (a ++ b) r
  scan-append a b r e short =
      ap (scan parse b) (scan-feed a r e ∙ cut_id (feed a r) short)
      ∙ scan-feed b (feed a r) (feed-IsPartial a r e)
      ∙ ap cut (sym (feed-append a b r))
      ∙ sym (scan-feed (a ++ b) r e)

  cut-IsPartial : (r : Reader) → IsPartial r → IsPartial (cut r)
  unfolding split_line
  cut-IsPartial r e = elim (Bool-cases (ltb max_line_buffer (length r.buf))) [
    | inl c ↦ rw c refl
    | inr c ↦ rw c e
  ]

  -- The loop of scan ends: with fuel for more than the bytes in the buffer its result does not
  -- depend on the fuel, and no whole line is left in the buffer.
  pub scan_terminates :
      (fuel : ℕ) (bytes : Text) (r : Reader)
      → length (r.buf ++ bytes) < fuel
      → (scan_loop parse fuel (record r { buf = r.buf ++ bytes }) ≡ scan parse bytes r)
        × IsPartial (scan parse bytes r)
  unfolding scan split_line
  scan_terminates fuel bytes r h =
      let s = r.buf ++ bytes in
      let last = scan_loop-feed (suc (length s)) s r (omega arith) in
      (
        scan_loop-feed fuel s r h ∙ sym last,
        subst IsPartial (sym last) (
            cut-IsPartial (feed s (record r { buf = [] }))
              (feed-IsPartial s (record r { buf = [] }) refl)),
      )
