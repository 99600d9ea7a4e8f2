-- ===== src/Cbus/Unbounded/System.antt =====
-- The threads and the fiber around the channel of tarantool/src/cbus/unbounded.rs, between their
-- atomic operations, in any order.
pub mod Order
pub mod Wakeup
pub mod HangUp
use tarantool_module.Base.{
  ℕ, ◌+◌, ◌-◌, ◌<◌, ◌≡◌, Bool, true, false, List, [], ◌∷◌, ◌++◌, Option, none, some, if◌then◌else◌,
  arith,
}
use tarantool_module.Cbus.Unbounded.{
  Channel, channel, wakeup, force_wakeup, wait, push, pop, clone_sender, release_sender,
  drop_receiver,
}

-- Where `receive` stands: before it, or behind a round; the queue was empty; the senders were still
-- there; asleep on the condition.
pub data Pc : Type 0 where
  round empty connected asleep : Pc

-- Who holds `arc_guard`: nobody, or a sender that is to call `wakeup`, or to signal, in its `drop`
-- where the argument is true and else in `send`.
pub data Guard : Type 0 where
  free : Guard
  to_wake to_signal : Bool → Guard

abbrev pub count : Bool → ℕ
count true = 1
count false = 0

-- The senders in their `drop`
abbrev pub inside : Guard → ℕ
inside free = 0
inside (to_wake dropping) = count dropping
inside (to_signal dropping) = count dropping

-- `leaving` senders have run their `drop` and hold the inner part still. `sent` and `received` are
-- the messages so far, and `hung_up` tells that `receive` has answered `Disconnected`.
pub record System {ℓ} (T : Type ℓ) : Type ℓ where
  pub channel : Channel T
  pub guard : Guard
  pub pc : Pc
  pub leaving : ℕ
  pub sent : List T
  pub received : List T
  pub hung_up : Bool

module _ {ℓ} {T : Type ℓ} where
  abbrev pub init : System T
  init = record {
    channel = channel;
    guard = free;
    pc = round;
    leaving = 0;
    sent = [];
    received = [];
    hung_up = false;
  }

  abbrev pub to_list : Option T → List T
  to_list none = []
  to_list (some m) = m ∷ []

  -- `Sender::send`: what was not refused was sent, and the guard is held until the wakeup is done.
  abbrev pub pushed : T → System T → System T
  pushed m s = elim (push m s.channel).0 [
    | some _ ↦ s
    | none ↦ record s {
      channel = (push m s.channel).1;
      guard = to_wake false;
      sent = s.sent ++ (m ∷ []);
    }
  ]

  abbrev pub woken : Bool → System T → System T
  woken dropping s =
      if (wakeup s.channel).0
      then record s { channel = (wakeup s.channel).1; guard = to_signal dropping }
      else record s { guard = free; leaving = s.leaving + count dropping }

  abbrev pub signalled : Bool → System T → System T
  signalled dropping s = record s {
    channel = force_wakeup s.channel;
    guard = free;
    leaving = s.leaving + count dropping;
  }

  pub pushed-open :
      (m : T) (s : System T)
      → s.channel.waker ≡ true
      → pushed m s ≡ record s {
        channel = record s.channel { list = s.channel.list ++ (m ∷ []) };
        guard = to_wake false;
        sent = s.sent ++ (m ∷ []);
      }
  unfolding push
  pushed-open m s e = ground arith

  pub pushed-refused : (m : T) (s : System T) → s.channel.waker ≡ false → pushed m s ≡ s
  unfolding push
  pushed-refused m s e = ground arith

  -- `Drop` of a sender: it wakes the receiver, and its references go behind that.
  abbrev pub dropped : System T → System T
  dropped s =
      if s.channel.waker
      then record s { guard = to_wake true }
      else record s { leaving = s.leaving + 1 }

  abbrev pub released : System T → System T
  released s = record s { channel = release_sender s.channel; leaving = s.leaving - 1 }

  -- The steps of `receive`
  abbrev pub popped : System T → System T
  popped s = record s {
    channel = (pop s.channel).1;
    pc = elim (pop s.channel).0 [ none ↦ empty | some _ ↦ round ];
    received = s.received ++ to_list (pop s.channel).0;
  }

  pub popped-empty :
      (s : System T)
      → s.channel.list ≡ []
      → popped s ≡ record s { pc = empty; received = s.received ++ [] }
  unfolding pop
  popped-empty s e = ground arith

  pub popped-cons :
      (m : T) (rest : List T) (s : System T)
      → s.channel.list ≡ m ∷ rest
      → popped s ≡ record s {
        channel = record s.channel { list = rest };
        pc = round;
        received = s.received ++ (m ∷ []);
      }
  unfolding pop
  popped-cons m rest s e = ground arith

  abbrev pub checked : System T → System T
  checked s = record s {
    pc = (if s.channel.disconnected then round else connected);
    hung_up = (if s.channel.disconnected then true else s.hung_up);
  }

  abbrev pub waited : System T → System T
  waited s = record s {
    channel = (wait s.channel).1;
    pc = (if (wait s.channel).0 then asleep else round);
  }

  -- A signal is handled by the thread of the receiver; it wakes the fiber, if that is asleep.
  abbrev pub handled : System T → System T
  handled s = record s {
    channel = record s.channel { signals = s.channel.signals - 1 };
    pc = elim s.pc [ asleep ↦ round | p ↦ p ];
  }

  pub data Step (s : System T) : System T → Type ℓ where
    sending : (m : T) → s.guard ≡ free → s.leaving < s.channel.senders → Step s (pushed m s)
    waking : (dropping : Bool) → s.guard ≡ to_wake dropping → Step s (woken dropping s)
    signalling : (dropping : Bool) → s.guard ≡ to_signal dropping → Step s (signalled dropping s)
    cloning :
        s.leaving + inside s.guard < s.channel.senders
        → Step s (record s { channel = clone_sender s.channel })
    dropping : s.guard ≡ free → s.leaving < s.channel.senders → Step s (dropped s)
    releasing : 0 < s.leaving → Step s (released s)
    popping : s.pc ≡ round → s.channel.waker ≡ true → Step s (popped s)
    checking : s.pc ≡ empty → Step s (checked s)
    waiting : s.pc ≡ connected → Step s (waited s)
    handling : 0 < s.channel.signals → Step s (handled s)
    timing_out : s.pc ≡ asleep → Step s (record s { pc = round })
    dropping_receiver :
        s.guard ≡ free → s.pc ≡ round → Step s (record s { channel = drop_receiver s.channel })

  pub data Reach : System T → Type ℓ where
    start : Reach init
    next : {s t : System T} → Reach s → Step s t → Reach t
