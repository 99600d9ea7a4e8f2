-- ===== src/Cbus/Oneshot/System.antt =====
-- The thread and the fiber around the channel of tarantool/src/cbus/oneshot.rs, in any order.
pub mod Laws
use tarantool_module.Base.{
  ℕ, ◌+◌, ◌-◌, ◌<◌, ◌≡◌, ◌≢◌, ◌⊎◌, inl, inr, refl, Bool, true, false, Option, none, some, arith,
  if◌then◌else◌,
}
use tarantool_module.Cbus.Oneshot.{
  Channel, channel, put, set_ready, drop_sender, begin_receive, take_message, drop_receiver,
}

-- The sender: alive; in `send`, with the message written; behind the flag; dropped.
pub data Sender : Type 0 where
  alive written stored gone : Sender

-- The receiver: alive; waiting on the condition; about to take the message; with its result; dropped
-- before `receive`.
pub data Receiver {ℓ} (T : Type ℓ) : Type ℓ where
  idle waiting taking dropped : Receiver T
  result : Option T → Receiver T

-- `sent` is the message that `send` was called with.
pub record System {ℓ} (T : Type ℓ) : Type ℓ where
  pub channel : Channel T
  pub sender : Sender
  pub receiver : Receiver T
  pub sent : Option T

module _ {ℓ} {T : Type ℓ} where
  abbrev pub init : System T
  init = record { channel = channel; sender = alive; receiver = idle; sent = none }

  abbrev pub put_in : T → System T → System T
  put_in m s = record s { channel = put m s.channel; sender = written; sent = some m }

  abbrev pub stored_in : System T → System T
  stored_in s = record s { channel = set_ready s.channel; sender = stored }

  abbrev pub sender_dropped : System T → System T
  sender_dropped s = record s { channel = drop_sender s.channel; sender = gone }

  abbrev pub receiving : System T → System T
  receiving s = record s {
    channel = (begin_receive s.channel).1;
    receiver = (if (begin_receive s.channel).0 then waiting else taking);
  }

  abbrev pub taken : System T → System T
  taken s = record s {
    channel = drop_receiver (take_message s.channel).1;
    receiver = result (take_message s.channel).0;
  }

  -- A signal that is handled wakes the receiver if it waits, and is lost if it does not.
  abbrev pub handled : System T → System T
  handled s = record s {
    channel = record s.channel { signals = s.channel.signals - 1 };
    receiver = elim s.receiver [ waiting ↦ taking | r ↦ r ];
  }

  -- Where `spurious` holds, the wait of `receive` may end though the condition was not signalled, as
  -- the documentation of `Cond` says of `fiber::wakeup` and `fiber::cancel`.
  pub data Step (spurious : Bool) (s : System T) : System T → Type ℓ where
    sending : (m : T) → s.sender ≡ alive → Step spurious s (put_in m s)
    storing : s.sender ≡ written → Step spurious s (stored_in s)
    dropping : (s.sender ≡ alive) ⊎ (s.sender ≡ stored) → Step spurious s (sender_dropped s)
    begin : s.receiver ≡ idle → Step spurious s (receiving s)
    waking :
        spurious ≡ true → s.receiver ≡ waiting → Step spurious s (record s { receiver = taking })
    take : s.receiver ≡ taking → Step spurious s (taken s)
    handling : 0 < s.channel.signals → Step spurious s (handled s)
    dropping_receiver :
        s.receiver ≡ idle
        → Step spurious s (record s { channel = drop_receiver s.channel; receiver = dropped })

  pub data Reach (spurious : Bool) : System T → Type ℓ where
    start : Reach spurious init
    next : {s t : System T} → Reach spurious s → Step spurious s t → Reach spurious t
