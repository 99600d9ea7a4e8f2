-- ===== src/Client/Steps.antt =====
-- The fibers of tarantool/src/network/client/mod.rs between two yields, in any order.
use tarantool_module.Base.{ℕ, ◌≡◌}
use tarantool_module.Io.{Cursor, Error, ok}
use tarantool_module.Protocol.{Config}
use tarantool_module.Protocol.Rmp.{Rmp}
use tarantool_module.Protocol.Api.{Request}
use tarantool_module.Client.{
  Client, new, begin_send, poll_send, forget, close_with, sender_round, receiver_round,
  clone_handle, drop_handle,
}

-- A call begins, is polled, or is cancelled, as by a timeout; a round of a worker, or the end of
-- the worker by an error of the transport; a handle is cloned or dropped.
pub data Step (rmp : Rmp) (c : Client) : Client → Type 1 where
  calling : {R : Type 0} (request : Request R) → Step rmp c (begin_send rmp request c).1
  polling :
      {R : Type 0} (request : Request R) (sync task : ℕ)
      → Step rmp c (poll_send request sync task c).1
  cancelling : (sync : ℕ) → Step rmp c (forget sync c)
  sending : Step rmp c (sender_round c).1
  receiving : {d : Client} (chunk : Cursor) → receiver_round rmp chunk c ≡ ok d → Step rmp c d
  failing : (e : Error) → Step rmp c (close_with e c)
  cloning : Step rmp c (clone_handle c)
  dropping : Step rmp c (drop_handle c)

pub data Reach (rmp : Rmp) (config : Config) : Client → Type 1 where
  start : Reach rmp config (new config)
  next : {c d : Client} → Reach rmp config c → Step rmp c d → Reach rmp config d
