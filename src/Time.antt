-- ===== src/Time.antt =====
-- tarantool/src/time.rs: instants as nanoseconds. A duration holds its seconds in a `u64`.
pub mod Laws
use tarantool_module.Base.{ℕ, ◌+◌, ◌-◌, ◌*◌, ◌^◌, Option, none, some, ltb, leb, if◌then◌else◌}

-- The durations are those below this one, 2 ^ 64 seconds.
abbrev pub duration_limit : ℕ
duration_limit = 2 ^ 64 * 10 ^ 9

abbrev pub duration_max : ℕ
duration_max = duration_limit - 1

pub checked_add : ℕ → ℕ → Option ℕ
checked_add instant duration =
    if ltb (instant + duration) duration_limit then some (instant + duration) else none

pub checked_sub : ℕ → ℕ → Option ℕ
checked_sub instant duration = if leb duration instant then some (instant - duration) else none

pub saturating_add : ℕ → ℕ → ℕ
saturating_add instant duration =
    if ltb (instant + duration) duration_limit then instant + duration else duration_max

pub saturating_sub : ℕ → ℕ → ℕ
saturating_sub instant duration = instant - duration

pub checked_duration_since : ℕ → ℕ → Option ℕ
unfolding checked_sub
checked_duration_since instant earlier = checked_sub instant earlier

unfoldable pub duration_since : ℕ → ℕ → ℕ
unfolding saturating_sub
duration_since instant earlier = saturating_sub instant earlier
