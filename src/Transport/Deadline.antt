-- ===== src/Transport/Deadline.antt =====
-- How long an attempt and an operation may take, and how often it is tried: `deadlineFor`,
-- `totalDeadlineFor` and `maximumAttempts` of src/internal/transport.ts.
use cuna_lib_ts.Base.{
  ℕ, ◌+◌, ◌*◌, ◌-◌, ◌^◌, ◌≤◌, ◌≡◌, if◌then◌else◌, true, Option, none, some, arith, min,
}
use cuna_lib_ts.Contract.{OperationKey, sessions_create, sessions_exec}
use cuna_lib_ts.Contract.Safety.{is_read}

abbrev pub session_create_deadline_ms : ℕ
session_create_deadline_ms = 31 * 60 * 1000

-- `timeoutSecs ?? 120`
abbrev pub timeout_or_default : Option ℕ → ℕ
timeout_or_default none = 120
timeout_or_default (some secs) = secs

write_deadline : OperationKey → Option ℕ → ℕ
write_deadline sessions_create timeout_secs = session_create_deadline_ms
write_deadline sessions_exec timeout_secs = timeout_or_default timeout_secs * 1000 + 15000
write_deadline _ timeout_secs = 60000

unfoldable pub deadline_for : OperationKey → Option ℕ → ℕ
unfolding write_deadline is_read
deadline_for key timeout_secs = if is_read key then 10000 else write_deadline key timeout_secs

unfoldable pub total_deadline_for : OperationKey → Option ℕ → ℕ
unfolding deadline_for is_read
total_deadline_for key timeout_secs = if is_read key then 30000 else deadline_for key timeout_secs

unfoldable pub maximum_attempts : OperationKey → ℕ
unfolding is_read
maximum_attempts key = if is_read key then 3 else 1

-- `Math.min(100 * 2 ** (attempt - 1), 1_000)`
abbrev pub delay_cap : ℕ → ℕ
delay_cap attempt = min (100 * 2 ^ (attempt - 1)) 1000

-- The timeouts that `exec` admits.
abbrev pub InRange : Option ℕ → Type 0
InRange none = Unit
InRange (some secs) = (1 ≤ secs) × (secs ≤ 600)

-- For the timeouts that `exec` admits, the deadline of one attempt is at least ten seconds and at most
-- that of the whole operation, which is 30 seconds for a read and at most 31 minutes for any other.
pub deadlines :
    (key : OperationKey) (timeout_secs : Option ℕ)
    → InRange timeout_secs
    → (deadline_for key timeout_secs ≤ total_deadline_for key timeout_secs)
      × (total_deadline_for key timeout_secs ≤ 1860000)
      × (10000 ≤ deadline_for key timeout_secs)
      × (is_read key ≡ true → total_deadline_for key timeout_secs ≡ 30000)
unfolding total_deadline_for
deadlines sessions_create timeout_secs h = ground arith
deadlines sessions_exec none h = ground arith
deadlines sessions_exec (some secs) h = ground arith
deadlines _ timeout_secs h = ground arith
