-- ===== src/Search/Suspended.antt =====
-- search/processors/abstract.py: `SuspendedStatus`. Readings of the clock are natural numbers.
use opencode_optimised_tooli.Prelude.{
  Bool, Option, String, leb, min, none, some, ℕ, ◌+◌, list_eq, nat_eq, pair_eq, string_eq,
}

pub record SuspendedStatus : Type 0 where
  pub continuous_errors : ℕ
  pub suspend_end_time : ℕ
  pub suspend_reason : String

-- `search.max_ban_time_on_fail` and `search.ban_time_on_fail`
pub record BanTimes : Type 0 where
  pub max_ban : ℕ
  pub ban_fail : ℕ

unfoldable pub is_suspended : ℕ → SuspendedStatus → Bool
is_suspended now s = leb now s.suspend_end_time

-- The time of a suspension: the given one, or that of the settings.
abbrev pub ban_time : BanTimes → Option ℕ → ℕ
ban_time times none = min times.max_ban times.ban_fail
ban_time times (some suspended_time) = suspended_time

unfoldable pub suspend : BanTimes → ℕ → Option ℕ → String → SuspendedStatus → SuspendedStatus
suspend times now suspended_time reason s = record {
  continuous_errors = s.continuous_errors + 1;
  suspend_end_time = now + ban_time times suspended_time;
  suspend_reason = reason;
}

unfoldable pub resume : SuspendedStatus → SuspendedStatus
resume s = record { continuous_errors = 0; suspend_end_time = 0; suspend_reason = "" }
