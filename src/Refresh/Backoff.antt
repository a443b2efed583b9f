-- ===== src/Refresh/Backoff.antt =====
-- The reconnection backoff of ext-pi/src/manager/refresh.ts.
use Prim.Native.Nat.{min}
use agent_cat.Base.{ℕ, ◌*◌}

abbrev pub reconnect_backoff_max_seconds : ℕ
reconnect_backoff_max_seconds = 30

abbrev pub initial_backoff : ℕ
initial_backoff = 1

-- The delay, and the backoff after it.
unfoldable pub reconnect_delay : ℕ → ℕ × ℕ
reconnect_delay seconds = (seconds, min reconnect_backoff_max_seconds (2 * seconds))
