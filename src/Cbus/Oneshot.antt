-- ===== src/Cbus/Oneshot.antt =====
-- tarantool/src/cbus/oneshot.rs: one value from a thread to a fiber. Each function is the part of the
-- source's function between two operations that the other side may see.
pub mod System
use tarantool_module.Base.{ℕ, ◌+◌, Bool, true, false, Option, none, some, if◌then◌else◌}

-- The channel; whether the receiver's reference to it is there; and the messages on the bus that
-- signal the condition and were not handled yet.
pub record Channel {ℓ} (T : Type ℓ) : Type ℓ where
  pub message : Option T
  pub ready : Bool
  pub receiver : Bool
  pub signals : ℕ

module _ {ℓ} {T : Type ℓ} where
  unfoldable pub channel : Channel T
  channel = record { message = none; ready = false; receiver = true; signals = 0 }

  -- `Sender::send`: the message, if the receiver is there, and behind it the flag
  unfoldable pub put : T → Channel T → Channel T
  put message c = if c.receiver then record c { message = some message } else c

  unfoldable pub set_ready : Channel T → Channel T
  set_ready c = if c.receiver then record c { ready = true } else c

  -- `Drop` of the sender, at the end of `send` too
  unfoldable pub drop_sender : Channel T → Channel T
  drop_sender c = if c.receiver then record c { signals = c.signals + 1 } else c

  -- `receive` up to its wait: whether it waits
  unfoldable pub begin_receive : Channel T → Bool × Channel T
  begin_receive c = if c.ready then (false, record c { ready = false }) else (true, c)

  -- `receive` behind its wait; `none` is `Disconnected`.
  pub take_message : Channel T → Option T × Channel T
  take_message c = (c.message, record c { message = none })

  pub drop_receiver : Channel T → Channel T
  drop_receiver c = record c { receiver = false }
