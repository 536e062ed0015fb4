-- ===== src/Budget/Contention/Order.antt =====
-- Two concurrent calls of Reserve of internal/budget/tracker.go that the limit has room for one of.
use koshi_runtime.Base.{
  ℕ, ◌+◌, ◌^◌, ◌≤◌, ◌<◌, ◌≡◌, refl, ap, sym, ◌∙◌, true, false, Bool, inl, inr, List, [], ◌∷◌, some,
  arith,
}
use mathlib.Core.Path.{subst}
use koshi_runtime.Base.Int.{ℤ, pos, ◌-ℤ◌, sub64, sub64-eq, lt_or_le_ℤ, int_laws}
use koshi_runtime.Budget.Window.{Window, truncate, deposit, consume_burst}
use koshi_runtime.Budget.Window.Valid.{IsValid}
use koshi_runtime.Budget.Contention.{
  Thread, starting, added, over_limit, short, answered, step_thread, Calls, step, run,
}
use koshi_runtime.Budget.Contention.Moves.{IsCharged, add_charges, total_charged}

module _ (now l : ℕ) where
  -- Two calls on one window.
  abbrev pub two : Window → Thread → Thread → Calls
  two w a b = record { limit = pos l; window = w; threads = a ∷ b ∷ [] }

  -- A window without a burst.
  abbrev Holds : ℕ → Window → Type 0
  Holds used w = IsCharged now used 0 w

  -- The place of the call that moves, and the two with that call in front.
  abbrev place : Bool → ℕ
  place true = 0
  place false = 1

  abbrev pair : Bool → Window → Thread → Thread → Calls
  pair true w a b = two w a b
  pair false w a b = two w b a

  moves :
      (x : Bool) (rest : List ℕ) (w w' : Window) (a b a' : Thread)
      → step_thread now (pos l) w a ≡ some (w', a')
      → run now (place x ∷ rest) (pair x w a b) ≡ run now rest (pair x w' a' b)
  unfolding run step
  moves true rest w w' a b a' e = rw (run, step, e) refl
  moves false rest w w' a b a' e = rw (run, step, e) refl

  adds :
      (used e : ℕ) (w : Window)
      → Holds used w
      → used + e < 2 ^ 63
      → (step_thread now (pos l) w (starting (pos e)) ≡ some (deposit (pos e) w, added (pos e)))
        × Holds (used + e) (deposit (pos e) w)
  unfolding step_thread
  adds used e w c h =
      let (f, c') = add_charges now used (used + e) 0 (pos e) w c (omega int_laws) h in
      (rw (step_thread, f) refl, c')

  sees_room :
      (used : ℕ) (est : ℤ) (w : Window)
      → Holds used w
      → used ≤ l
      → step_thread now (pos l) w (added est) ≡ some (w, answered est true)
  unfolding step_thread
  sees_room used est w c h = elim (lt_or_le_ℤ (pos l) (pos used)) [
    | inl (_, _, more) ↦ absurd (omega (arith, more))
    | inr (_, e, _) ↦ rw (step_thread, total_charged now used 0 w c, e) refl
  ]

  sees_none :
      (used : ℕ) (est : ℤ) (w : Window)
      → Holds used w
      → l < used
      → used < 2 ^ 63
      → step_thread now (pos l) w (added est) ≡ some (w, over_limit est (pos used -ℤ pos l))
  unfolding step_thread
  sees_none used est w c h g = elim (lt_or_le_ℤ (pos l) (pos used)) [
    | inr (_, _, le) ↦ absurd (omega (arith, le))
    | inl (_, e, _) ↦
        rw
          (
            step_thread,
            total_charged now used 0 w c,
            e,
            sub64-eq (pos used) (pos l) (omega int_laws),
          )
          refl
  ]

  finds_no_burst :
      (used seen : ℕ) (est : ℤ) (w : Window)
      → Holds used w
      → l < seen
      → step_thread now (pos l) w (over_limit est (pos seen -ℤ pos l)) ≡ some (w, short est)
  unfolding step_thread consume_burst
  finds_no_burst used seen est w c h = elim (lt_or_le_ℤ w.burst_remaining (pos seen -ℤ pos l)) [
    | inl (e, _, _) ↦ rw (step_thread, e) refl
    | inr (_, _, le) ↦ absurd (omega (int_laws, le, c.burst_amount, c.burst_most))
  ]

  takes_back :
      (used e : ℕ) (w : Window)
      → Holds (used + e) w
      → used + e < 2 ^ 63
      → (w' : Window) × (step_thread now (pos l) w (short (pos e))
          ≡ some (w', answered (pos e) false))
        × Holds used w'
  unfolding step_thread
  takes_back used e w c h =
      let k = sub64 (pos 0) (pos e) in
      let (f, c') =
        add_charges now (used + e) used 0 k w c
          (rw (sub64-eq (pos 0) (pos e) (omega int_laws)) (omega int_laws)) (omega arith) in
      (deposit k w, rw (step_thread, f) refl, c')

  waits :
      (w : Window) (est : ℤ) (r : Bool)
      → step_thread now (pos l) w (answered est r) ≡ some (w, answered est r)
  unfolding step_thread
  waits w est r = refl

  -- A call that sees no room is refused.
  refusal :
      (x : Bool) (used e : ℕ) (w : Window) (b : Thread)
      → Holds (used + e) w
      → l < used + e
      → used + e < 2 ^ 63
      → (w' : Window) × (run now (place x ∷ place x ∷ place x ∷ []) (pair x w (added (pos e)) b)
          ≡ some (pair x w' (answered (pos e) false) b))
  unfolding run
  refusal x used e w b c h g =
      let (w', back, _) = takes_back used e w c g in
      let i = place x in
      let over : ℤ = pos (used + e) -ℤ pos l in
      (
        w',
        moves x (i ∷ i ∷ []) w w (added (pos e)) b (over_limit (pos e) over)
              (sees_none (used + e) (pos e) w c h g)
            ∙ moves x (i ∷ []) w w (over_limit (pos e) over) b (short (pos e))
                (finds_no_burst (used + e) (used + e) (pos e) w c h)
            ∙ moves x [] w w' (short (pos e)) b (answered (pos e) false) back,
      )

  abbrev turned : Bool → Bool
  turned true = false
  turned false = true

  pair-turned : (x : Bool) (w : Window) (a b : Thread) → pair x w a b ≡ pair (turned x) w b a
  pair-turned true w a b = refl
  pair-turned false w a b = refl

  -- One whole call after the other, of which the limit has room for the first.
  in_turn :
      (x : Bool) (u e f : ℕ) (w : Window)
      → Holds u w
      → u + e ≤ l
      → l < u + e + f
      → u + e + f < 2 ^ 63
      → let i = place x in
        let j = place (turned x) in
        (w' : Window) × (run now
            (i ∷ i ∷ i ∷ i ∷ j ∷ j ∷ j ∷ j ∷ [])
            (pair x w (starting (pos e)) (starting (pos f)))
          ≡ some (pair x w' (answered (pos e) true) (answered (pos f) false)))
  in_turn x u e f w c room full g =
      let i = place x in
      let y = turned x in
      let j = place y in
      let (a1, c1) = adds u e w c (omega arith) in
      let w1 = deposit (pos e) w in
      let (a2, c2) = adds (u + e) f w1 c1 g in
      let w2 = deposit (pos f) w1 in
      let (w3, refused) = refusal y (u + e) f w2 (answered (pos e) true) c2 full g in
      let rest : List ℕ = j ∷ j ∷ j ∷ j ∷ [] in
      (
        w3,
        moves x (i ∷ i ∷ i ∷ rest) w w1 (starting (pos e)) (starting (pos f)) (added (pos e)) a1
            ∙ moves x (i ∷ i ∷ rest) w1 w1 (added (pos e)) (starting (pos f))
                (answered (pos e) true) (sees_room (u + e) (pos e) w1 c1 room)
            ∙ moves x (i ∷ rest) w1 w1 (answered (pos e) true) (starting (pos f))
                (answered (pos e) true) (waits w1 (pos e) true)
            ∙ moves x rest w1 w1 (answered (pos e) true) (starting (pos f)) (answered (pos e) true)
                (waits w1 (pos e) true)
            ∙ ap (run now rest) (pair-turned x w1 (answered (pos e) true) (starting (pos f)))
            ∙ moves y (j ∷ j ∷ j ∷ []) w1 w2 (starting (pos f)) (answered (pos e) true)
                (added (pos f)) a2
            ∙ refused
            ∙ ap some (sym (pair-turned x w3 (answered (pos e) true) (answered (pos f) false))),
      )

  -- The calls take their steps in turn.
  side_by_side :
      (u e f : ℕ) (w : Window)
      → Holds u w
      → l < u + e + f
      → u + e + f < 2 ^ 63
      → (w' : Window) × (run now
            (0 ∷ 1 ∷ 0 ∷ 1 ∷ 0 ∷ 1 ∷ 0 ∷ 1 ∷ [])
            (two w (starting (pos e)) (starting (pos f)))
          ≡ some (two w' (answered (pos e) false) (answered (pos f) false)))
  unfolding run
  side_by_side u e f w c full g =
      let (a1, c1) = adds u e w c (omega arith) in
      let w1 = deposit (pos e) w in
      let (a2, c2) = adds (u + e) f w1 c1 g in
      let w2 = deposit (pos f) w1 in
      let all = u + e + f in
      let over : ℤ = pos all -ℤ pos l in
      let c2' : Holds (u + f + e) w2 = subst (λ n. Holds n w2) (omega arith) c2 in
      let (w3, back_e, c3) = takes_back (u + f) e w2 c2' (omega arith) in
      let (w4, back_f, _) = takes_back u f w3 c3 (omega arith) in
      let (se, sf) : Thread × Thread = (starting (pos e), starting (pos f)) in
      let (ae, af) : Thread × Thread = (added (pos e), added (pos f)) in
      let (oe, of_) : Thread × Thread = (over_limit (pos e) over, over_limit (pos f) over) in
      let (he, hf) : Thread × Thread = (short (pos e), short (pos f)) in
      let (ne, nf) : Thread × Thread = (answered (pos e) false, answered (pos f) false) in
      (
        w4,
        moves true (1 ∷ 0 ∷ 1 ∷ 0 ∷ 1 ∷ 0 ∷ 1 ∷ []) w w1 se sf ae a1
            ∙ moves false (0 ∷ 1 ∷ 0 ∷ 1 ∷ 0 ∷ 1 ∷ []) w1 w2 sf ae af a2
            ∙ moves true (1 ∷ 0 ∷ 1 ∷ 0 ∷ 1 ∷ []) w2 w2 ae af oe
                (sees_none all (pos e) w2 c2 full g)
            ∙ moves false (0 ∷ 1 ∷ 0 ∷ 1 ∷ []) w2 w2 af oe of_ (sees_none all (pos f) w2 c2 full g)
            ∙ moves true (1 ∷ 0 ∷ 1 ∷ []) w2 w2 oe of_ he
                (finds_no_burst all all (pos e) w2 c2 full)
            ∙ moves false (0 ∷ 1 ∷ []) w2 w2 of_ he hf (finds_no_burst all all (pos f) w2 c2 full)
            ∙ moves true (1 ∷ []) w2 w3 he hf ne back_e
            ∙ moves false [] w3 w4 hf ne nf back_f,
      )

  -- Two calls of Reserve within one second of the clock, on a valid window of that second
  -- without a burst, whose total is `u`, where the limit `l` has room for either call but not
  -- for both, and no sum wraps: when the two take their four steps in turn, the first one first,
  -- so that both have added their tokens and read the total before either takes its tokens back,
  -- both are refused; made one after the other, the first is granted and the second refused, in
  -- either order.
  pub both_refused :
      (u e f : ℕ) (w : Window)
      → IsValid w
      → truncate now ≤ w.head_time
      → w.total_tokens ≡ pos u
      → w.burst_remaining ≡ pos 0
      → u + e ≤ l
      → u + f ≤ l
      → l < u + e + f
      → u + e + f < 2 ^ 63
      → let s = two w (starting (pos e)) (starting (pos f)) in
        ((w' : Window) × (run now (0 ∷ 1 ∷ 0 ∷ 1 ∷ 0 ∷ 1 ∷ 0 ∷ 1 ∷ []) s
            ≡ some (two w' (answered (pos e) false) (answered (pos f) false))))
        × ((w' : Window) × (run now (0 ∷ 0 ∷ 0 ∷ 0 ∷ 1 ∷ 1 ∷ 1 ∷ 1 ∷ []) s
              ≡ some (two w' (answered (pos e) true) (answered (pos f) false))))
        × ((w' : Window) × (run now (1 ∷ 1 ∷ 1 ∷ 1 ∷ 0 ∷ 0 ∷ 0 ∷ 0 ∷ []) s
              ≡ some (two w' (answered (pos e) false) (answered (pos f) true))))
  both_refused u e f w v begun total_is no_burst room_e room_f full g =
      let c : Holds u w = record {
        valid = v;
        begun = begun;
        total_is = total_is;
        burst_amount = rw no_burst (omega arith);
        burst_most = rw no_burst (omega arith);
      } in
      (
        side_by_side u e f w c full g,
        in_turn true u e f w c room_e full g,
        in_turn false u f e w c room_f (omega arith) (omega arith),
      )
