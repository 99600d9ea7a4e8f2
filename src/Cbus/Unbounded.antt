-- ===== src/Cbus/Unbounded.antt =====
-- tarantool/src/cbus/unbounded.rs: a queue from many threads to a fiber, and the waker that the
-- threads share with it. Each function is one atomic operation, or the part of the source's function
-- between two of them; `send` and `receive` are made of them in Cbus/Unbounded/System.
pub mod System
use tarantool_module.Base.{
  ℕ, ◌+◌, ◌-◌, Bool, true, false, List, [], ◌∷◌, ◌++◌, Option, none, some, ◌==◌, if◌then◌else◌,
  length,
}

-- The queue and the flag of `Channel`, the flag of `Waker`, and whether the receiver's reference to
-- the waker is there. `senders` counts the references to `SenderInner`, and `signals` the messages on
-- the bus that signal the condition and were not handled yet.
pub record Channel {ℓ} (T : Type ℓ) : Type ℓ where
  pub list : List T
  pub disconnected : Bool
  pub woken : Bool
  pub waker : Bool
  pub senders : ℕ
  pub signals : ℕ

module _ {ℓ} {T : Type ℓ} where
  unfoldable pub channel : Channel T
  channel = record {
    list = [];
    disconnected = false;
    woken = false;
    waker = true;
    senders = 1;
    signals = 0;
  }

  -- `Waker::wakeup`, the exchange: whether it falls to the caller to signal
  unfoldable pub wakeup : Channel T → Bool × Channel T
  wakeup c = if c.woken then (false, c) else (true, record c { woken = true })

  -- `Waker::force_wakeup`
  unfoldable pub force_wakeup : Channel T → Channel T
  force_wakeup c = record c { signals = c.signals + 1 }

  -- `Waker::wait`, the exchange: whether the condition is waited on
  unfoldable pub wait : Channel T → Bool × Channel T
  wait c = if c.woken then (false, record c { woken = false }) else (true, c)

  -- `Sender::send` up to its wakeup: a message is returned if the receiver is gone.
  unfoldable pub push : T → Channel T → Option T × Channel T
  push msg c = if c.waker then (none, record c { list = c.list ++ (msg ∷ []) }) else (some msg, c)

  -- The queue's `pop`
  unfoldable pub pop : Channel T → Option T × Channel T
  pop c = elim c.list [ [] ↦ (none, c) | msg ∷ rest ↦ (some msg, record c { list = rest }) ]

  -- `Clone` of a sender, and the end of one's reference to `SenderInner`, which is dropped with the
  -- last
  pub clone_sender : Channel T → Channel T
  clone_sender c = record c { senders = c.senders + 1 }

  pub release_sender : Channel T → Channel T
  release_sender c = record c {
    senders = c.senders - 1;
    disconnected = (if c.senders == 1 then true else c.disconnected);
  }

  pub drop_receiver : Channel T → Channel T
  drop_receiver c = record c { waker = false }

  pub len : Channel T → ℕ
  len c = length c.list
