-- ===== src/Budget/Contention/Moves.antt =====
-- One step of a thread of concurrent calls of Reserve.
use koshi_runtime.Base.{
  ℕ, ◌+◌, ◌-◌, ◌^◌, ◌≤◌, ◌<◌, ◌≡◌, refl, ap, true, false, Bool, ◌⊎◌, inl, inr, some, if◌then◌else◌,
  arith,
}
use mathlib.Core.Path.{subst, sym}
use koshi_runtime.Base.Int.{
  ℤ, pos, pos_part, ◌+ℤ◌, ◌-ℤ◌, ◌≤ℤ◌, sub64, ltb_ℤ, add64-eq, sub64-eq, lt_or_le_ℤ, int_laws,
  -ℤ_parts, parts,
}
use koshi_runtime.Budget.Window.{Window, truncate, deposit, add, total, consume_burst}
use koshi_runtime.Budget.Window.Valid.{IsValid, add-some, deposit-IsValid}
use koshi_runtime.Budget.Window.Still.{advance_still, clamp_id}
use koshi_runtime.Budget.Contention.{
  Thread, starting, added, over_limit, short, answered, step_thread,
}
use koshi_runtime.Budget.Contention.Sums.{asked, held, within, within_over}

-- The amounts of a thread are not negative.
abbrev pub HasAmounts : Thread → Type 0
HasAmounts (starting est) = pos 0 ≤ℤ est
HasAmounts (added est) = pos 0 ≤ℤ est
HasAmounts (over_limit est overage) = (pos 0 ≤ℤ est) × (pos 0 ≤ℤ overage)
HasAmounts (short est) = pos 0 ≤ℤ est
HasAmounts (answered est allowed) = pos 0 ≤ℤ est

-- A window whose second has begun, with `used` tokens and a burst of at most `b`.
pub record IsCharged (now used b : ℕ) (w : Window) : Type 0 where
  pub valid : IsValid w
  pub begun : truncate now ≤ w.head_time
  pub total_is : w.total_tokens ≡ pos used
  pub burst_amount : pos 0 ≤ℤ w.burst_remaining
  pub burst_most : pos_part w.burst_remaining ≤ b

-- What a step from `t` to `t'` does to a window: the total follows what the threads hold, and
-- whoever comes to be granted is covered by the limit or by the burst that is spent.
pub record Moved (now used l b : ℕ) (t t' : Thread) (w w' : Window) : Type 0 where
  pub used' : ℕ
  pub charged : IsCharged now used' b w'
  pub follows : used' + held t ≡ used + held t'
  pub same_asked : asked t' ≡ asked t
  pub amounts : HasAmounts t'
  pub spends : pos_part w'.burst_remaining ≤ pos_part w.burst_remaining
  pub covered :
      (m : ℕ) → b ≤ pos_part w'.burst_remaining + m → (within m t' ≤ within m t) ⊎ (used' ≤ l + m)

deposit_charges :
    (now used used' b : ℕ) (k : ℤ) (w : Window)
    → IsCharged now used b w
    → pos used +ℤ k ≡ pos used'
    → used' < 2 ^ 63
    → IsCharged now used' b (deposit k w)
unfolding deposit
deposit_charges now used used' b k w c e h = record {
  valid = deposit-IsValid k w c.valid;
  begun = c.begun;
  total_is =
      rw (c.total_is, add64-eq (pos used) k (rw e (h, omega arith)), e)
        (clamp_id (pos used') (omega arith));
  burst_amount = c.burst_amount;
  burst_most = c.burst_most;
}

pub add_charges :
    (now used used' b : ℕ) (k : ℤ) (w : Window)
    → IsCharged now used b w
    → pos used +ℤ k ≡ pos used'
    → used' < 2 ^ 63
    → (add k now w ≡ some (deposit k w)) × IsCharged now used' b (deposit k w)
add_charges now used used' b k w c e h = (
  rw (add-some k now w c.valid, advance_still now w c.begun) refl,
  deposit_charges now used used' b k w c e h,
)

pub total_charged :
    (now used b : ℕ) (w : Window) → IsCharged now used b w → total now w ≡ (w, pos used)
unfolding total
total_charged now used b w c = rw (advance_still now w c.begun) (
    ap (λ n. (w, n))
      (subst (λ n. (if ltb_ℤ n (pos 0) then pos 0 else n) ≡ pos used) (sym c.total_is)
        (clamp_id (pos used) (omega arith))))

module _ (now used l b : ℕ) (w : Window) (c : IsCharged now used b w) where
  abbrev Next : Thread → Type 0
  Next t =
      (w' : Window) × (t' : Thread) × (step_thread now (pos l) w t ≡ some (w', t'))
      × Moved now used l b t t' w w'

  pub starting_moves : (est : ℤ) → pos 0 ≤ℤ est → used + pos_part est < 2 ^ 63 → Next (starting est)
  unfolding step_thread deposit
  starting_moves est a h =
      let (e, charged) = add_charges now used (used + pos_part est) b est w c (omega int_laws) h in
      (
        deposit est w,
        added est,
        rw (step_thread, e) refl,
        record {
          used' = used + pos_part est;
          charged = charged;
          follows = omega arith;
          same_asked = refl;
          amounts = a;
          spends = omega arith;
          covered = λ m _. inl (omega arith);
        },
      )

  pub short_moves :
      (est : ℤ) → pos 0 ≤ℤ est → pos_part est ≤ used → used < 2 ^ 63 → Next (short est)
  unfolding step_thread deposit
  short_moves est a le h =
      let k = sub64 (pos 0) est in
      let (e, charged) =
        add_charges now used (used - pos_part est) b k w c
          (rw (sub64-eq (pos 0) est (omega int_laws)) (omega int_laws)) (omega arith) in
      (
        deposit k w,
        answered est false,
        rw (step_thread, e) refl,
        record {
          used' = used - pos_part est;
          charged = charged;
          follows = omega arith;
          same_asked = refl;
          amounts = a;
          spends = omega arith;
          covered = λ m _. inl (omega arith);
        },
      )

  pub added_moves : (est : ℤ) → pos 0 ≤ℤ est → used + l < 2 ^ 63 → Next (added est)
  unfolding step_thread
  added_moves est a h = elim (lt_or_le_ℤ (pos l) (pos used)) [
    | inr (_, e, le) ↦ (
      w,
      answered est true,
      rw (step_thread, total_charged now used b w c, e) refl,
      record {
        used' = used;
        charged = c;
        follows = refl;
        same_asked = refl;
        amounts = a;
        spends = omega arith;
        covered = λ m _. inr (omega arith);
      },
    )
    | inl (_, e, more) ↦ (
      w,
      over_limit est (pos used -ℤ pos l),
      rw
          (
            step_thread,
            total_charged now used b w c,
            e,
            sub64-eq (pos used) (pos l) (omega int_laws),
          )
          refl,
      record {
        used' = used;
        charged = c;
        follows = refl;
        same_asked = refl;
        amounts = (a, omega int_laws);
        spends = omega arith;
        covered = λ m _. ground (arith, -ℤ_parts (pos used) (pos l), parts (pos used -ℤ pos l));
      },
    )
  ]

  pub over_limit_moves :
      (est overage : ℤ)
      → pos 0 ≤ℤ est
      → pos 0 ≤ℤ overage
      → b < 2 ^ 63
      → Next (over_limit est overage)
  unfolding step_thread consume_burst
  over_limit_moves est overage a o h = elim (lt_or_le_ℤ w.burst_remaining overage) [
    | inl (e, _, _) ↦ (
      w,
      short est,
      rw (step_thread, e) refl,
      record {
        used' = used;
        charged = c;
        follows = refl;
        same_asked = refl;
        amounts = a;
        spends = omega arith;
        covered = λ m _. inl (omega arith);
      },
    )
    | inr (e, _, le) ↦ (
      record w { burst_remaining = w.burst_remaining -ℤ overage },
      answered est true,
      rw
          (
            step_thread,
            e,
            sub64-eq w.burst_remaining overage (omega (int_laws, c.burst_amount, c.burst_most)),
          )
          refl,
      record {
        used' = used;
        charged = record {
          valid = record {
            positive = c.valid.positive;
            sized = c.valid.sized;
            head_in = c.valid.head_in;
          };
          begun = c.begun;
          total_is = c.total_is;
          burst_amount = omega int_laws;
          burst_most = omega (int_laws, c.burst_amount, c.burst_most);
        };
        follows = refl;
        same_asked = refl;
        amounts = a;
        spends = omega (int_laws, c.burst_amount, c.burst_most);
        covered = λ m enough.
            inl (omega (int_laws, c.burst_amount, c.burst_most, within_over m est overage));
      },
    )
  ]

  pub answered_moves : (est : ℤ) (r : Bool) → pos 0 ≤ℤ est → Next (answered est r)
  unfolding step_thread
  answered_moves est r a = (
    w,
    answered est r,
    refl,
    record {
      used' = used;
      charged = c;
      follows = refl;
      same_asked = refl;
      amounts = a;
      spends = omega arith;
      covered = λ m _. inl (omega arith);
    },
  )
