-- ===== src/Time/Laws.antt =====
-- The instants of tarantool/src/time.rs below the limit of durations.
use tarantool_module.Base.{ℕ, ◌+◌, ◌<◌, ◌≡◌, some, lt→ltb, refl}
use tarantool_module.Time.{duration_limit, checked_add}

pub checked_add-below :
    (instant duration : ℕ)
    → instant + duration < duration_limit
    → checked_add instant duration ≡ some (instant + duration)
unfolding checked_add
checked_add-below instant duration h = rw (lt→ltb (instant + duration) duration_limit h) refl
