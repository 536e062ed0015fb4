-- ===== src/Startup/Shutdown.antt =====
-- The end of cmd/koshi/main.go, from the select on a signal and the error of the server. What the
-- server still does while it shuts down is not modelled; the log lines are left out.
use koshi_runtime.Base.{ℕ, Option, none, some, String}
use koshi_runtime.Emit.{LogEmitter, close_drained}

pub data Ending : Type 0 where
  signalled : Ending
  server_failed : String → Ending

-- The status of a process whose main function returns.
abbrev returned : Option LogEmitter → Option (LogEmitter × ℕ)
returned none = none
returned (some e) = some (e, 0)

-- Both cases of the select go on, and so does an error of Shutdown. `none` is a panic.
unfoldable pub shut_down : Ending → Option String → LogEmitter → Option (LogEmitter × ℕ)
unfolding close_drained
shut_down signalled shutdown_error e = returned (close_drained e)
shut_down (server_failed error) shutdown_error e = returned (close_drained e)
