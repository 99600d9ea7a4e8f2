-- ===== src/Fiber/Mutex.antt =====
-- tarantool/src/fiber/async/mutex.rs: a lock whose `lock` is a future. Who has a guard is up to the
-- caller; a call that returns one answers `true`.
pub mod Tasks
pub mod System
pub mod Liveness
use tarantool_module.Base.{
  ℕ, Bool, true, false, List, [], ◌∷◌, ◌++◌, Option, none, some, if◌then◌else◌,
}

pub record Mutex {ℓ} (T : Type ℓ) : Type ℓ where
  pub locked : Bool
  pub wakers : List ℕ
  pub contents : T

module _ {ℓ} {T : Type ℓ} where
  unfoldable pub new : T → Mutex T
  new t = record { contents = t; locked = false; wakers = [] }

  unfoldable pub add_waker : ℕ → Mutex T → Mutex T
  add_waker task m = record m { wakers = m.wakers ++ (task ∷ []) }

  unfoldable pub wake_one : Mutex T → Option ℕ × Mutex T
  wake_one m = elim m.wakers [
    | [] ↦ (none, m)
    | waker ∷ wakers ↦ (some waker, record m { wakers = wakers })
  ]

  -- `MutexGuard::new`
  unfoldable pub guard : Mutex T → Mutex T
  guard m = record m { locked = true }

  -- `Lock::poll`
  unfoldable pub poll : ℕ → Mutex T → Bool × Mutex T
  unfolding add_waker guard
  poll task m = if m.locked then (false, add_waker task m) else (true, guard m)

  unfoldable pub try_lock : Mutex T → Bool × Mutex T
  unfolding guard
  try_lock m = if m.locked then (false, m) else (true, guard m)

  -- `Drop` of a guard, which `unlock` calls
  unfoldable pub drop_guard : Mutex T → Option ℕ × Mutex T
  unfolding wake_one
  drop_guard m = wake_one (record m { locked = false })
