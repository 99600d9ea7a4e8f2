-- ===== src/Client/Reconnect.antt =====
-- tarantool/src/network/client/reconnect.rs: clones of a client share one connection behind the lock
-- of Fiber/Mutex. `C` stands for the clients of tarantool/src/network/client/mod.rs.
pub mod Sharing
use tarantool_module.Base.{ℕ, ◌+◌, Bool, true, false, Option, none, some, if◌then◌else◌}
use tarantool_module.Io.{Error}
use tarantool_module.Client.{ClientError, connection_closed}
use tarantool_module.Fiber.Mutex as Mutex
use tarantool_module.Fiber.Mutex.{Mutex, poll, try_lock, drop_guard}

-- `ClientOrConnectionClosedError`
pub data Slot (C : Type 0) : Type 0 where
  client : C → Slot C
  closed : Error → Slot C

-- What a call of `client` comes to: it waits for the lock, has its result, or connects, and holds
-- the lock while it does.
pub data Asked (C : Type 0) : Type 0 where
  waiting connecting : Asked C
  given : C → Asked C
  refused : ClientError → Asked C

abbrev pub answer : {C : Type 0} → Slot C → Asked C
answer (client c) = given c
answer (closed e) = refused (connection_closed e)

module _ {C : Type 0} where
  -- `new` and `with_config`: there is no connection yet.
  unfoldable pub with_config : Mutex (Option (Slot C))
  with_config = Mutex.new none

  -- A poll of `client`, up to `connect_with_config`. The second component is the task that the drop
  -- of the guard wakes.
  unfoldable pub ask : ℕ → Mutex (Option (Slot C)) → Asked C × Option ℕ × Mutex (Option (Slot C))
  ask task m =
      let (locked, m1) = poll task m in
      if locked
      then elim m1.contents [
        | some slot ↦ let (woken, m2) = drop_guard m1 in (answer slot, woken, m2)
        | none ↦ (connecting, none, m1)
      ]
      else (waiting, none, m1)

  -- `client` behind `connect_with_config`: its result is kept for the clones.
  unfoldable pub connected :
      Slot C → Mutex (Option (Slot C)) → Asked C × Option ℕ × Mutex (Option (Slot C))
  connected slot m =
      let (woken, m1) = drop_guard (record m { contents = some slot }) in (answer slot, woken, m1)

  -- The future of `client` is dropped while it connects.
  unfoldable pub abandon : Mutex (Option (Slot C)) → Option ℕ × Mutex (Option (Slot C))
  abandon m = drop_guard m

  -- `reconnect`: the slot is emptied, unless the lock is held.
  unfoldable pub reconnect : Mutex (Option (Slot C)) → Option ℕ × Mutex (Option (Slot C))
  reconnect m =
      let (locked, m1) = try_lock m in
      if locked then drop_guard (record m1 { contents = none }) else (none, m1)
