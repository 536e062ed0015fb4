-- ===== src/Enforce.antt =====
-- internal/enforce: actions.go and decider.go, with the stub of internal/fanout/tracker.go.
use koshi_runtime.Base.{
  ℕ, suc, ◌-◌, ◌*◌, ◌/◌, Option, none, some, String, str_eq, if◌then◌else◌, Bool, true,
}
use koshi_runtime.Base.Int.{ℤ, pos, negsuc, wrap64, leb_ℤ, sub_ℕ}
use koshi_runtime.Budget.Tracker.{BudgetStatus}
use koshi_runtime.Budget.Window.{second}
use koshi_runtime.Config.{Policy}

pub data Action : Type 0 where
  allow throttle kill : Action

pub record Decision : Type 0 where
  pub action : Action
  pub tier : ℕ
  pub reason : String
  pub reason_code : String
  pub retry_after : ℤ
  pub tokens_used : ℤ
  pub tokens_limit : ℤ

pub record FanoutStatus : Type 0 where
  pub correlation_id : String
  pub call_count : ℤ
  pub depth : ℤ
  pub max_calls : ℤ
  pub max_depth : ℤ

-- NoOpTracker.Increment
unfoldable pub increment : String → FanoutStatus × Bool
increment id = (
  record {
    correlation_id = id;
    call_count = pos 0;
    depth = pos 0;
    max_calls = pos 0;
    max_depth = pos 0;
  },
  true,
)

-- A fresh decision of this action, tier, reason and code.
abbrev decision : Action → ℕ → String → String → ℤ → Decision
decision a tier reason code retry = record {
  action = a;
  tier = tier;
  reason = reason;
  reason_code = code;
  retry_after = retry;
  tokens_used = pos 0;
  tokens_limit = pos 0;
}

-- Go's `/ 2` rounds towards zero.
abbrev half : ℤ → ℤ
half (pos n) = pos (n / 2)
half (negsuc n) = sub_ℕ 0 (suc n / 2)

-- time.Duration(s) * time.Second
unfoldable pub seconds : ℤ → ℤ
seconds (pos n) = wrap64 (pos (n * second))
seconds (negsuc n) = wrap64 (negsuc (suc n * second - 1))

abbrev pub retry_after_of : Policy → ℤ
retry_after_of p = seconds (half p.rolling_tokens.window_seconds)

-- TierDecider.Evaluate; the fanout status is not read.
unfoldable pub evaluate : Policy → BudgetStatus → FanoutStatus → Decision
evaluate p bs _ =
    if leb_ℤ bs.window_tokens_used bs.window_tokens_limit
    then decision Action.allow 0 "" "" (pos 0)
    else (if str_eq p.decision_tiers.tier3_platform "kill_workload"
        then decision Action.kill 3 "budget exceeded, kill_workload configured"
            "budget_exhausted_kill" (pos 0)
        else decision Action.throttle 1 "budget exceeded, no burst remaining"
            "budget_exhausted_throttle" (retry_after_of p))

unfoldable pub check_per_request_guard : Policy → ℤ → Option Decision
check_per_request_guard p max_tokens =
    if leb_ℤ p.guards.max_tokens_per_request (pos 0)
    then none
    else (if leb_ℤ max_tokens p.guards.max_tokens_per_request
        then none
        else some (
            decision Action.throttle 1 "max_tokens exceeds per-request guard" "guard_max_tokens"
              (pos 0)))
