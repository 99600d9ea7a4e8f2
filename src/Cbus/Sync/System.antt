-- ===== src/Cbus/Sync/System.antt =====
-- The threads and the fiber around the channel of tarantool/src/cbus/sync/std.rs, in any order.
pub mod Order
pub mod Parked
pub mod Dropped
use tarantool_module.Base.{
  ℕ, ◌+◌, ◌-◌, ◌≡◌, ◌≢◌, Bool, true, false, List, [], ◌∷◌, ◌++◌, Option, none, some, if◌then◌else◌,
  arith, ltb, length,
}
use tarantool_module.Cbus.Sync.{
  Channel, channel, set, push, pop, enlist, wakeup_one, clone_sender, release_sender, disconnect,
  drop_waker,
}

-- Where a thread stands in `send`: outside; at the head of the loop; behind its look at the flag;
-- refused by the full queue; in `wait`, behind its look at the flag; its `Thread` in the list; parked.
pub data Sender {ℓ} (T : Type ℓ) : Type ℓ where
  outside : Sender T
  looking ready full connected : T → Sender T
  enlisted parked : T → ℕ → Sender T

-- Where the receiver stands: at the head of the loop of `receive`; with a message, before it wakes a
-- thread; behind an empty queue; behind the flag; waiting; in its `drop`; dropped.
pub data Receiver : Type 0 where
  round found empty open_ended waiting dropping gone : Receiver

-- `sent` and `received` are the messages so far.
pub record System {ℓ} (T : Type ℓ) : Type ℓ where
  pub channel : Channel T
  pub senders : ℕ → Sender T
  pub receiver : Receiver
  pub sent : List T
  pub received : List T

module _ {ℓ} {T : Type ℓ} where
  abbrev pub init : ℕ → System T
  init cap = record {
    channel = channel cap;
    senders = λ i. outside;
    receiver = round;
    sent = [];
    received = [];
  }

  abbrev pub to_list : Option T → List T
  to_list none = []
  to_list (some m) = m ∷ []

  -- Thread `i` comes to stand at `p`.
  abbrev pub at : ℕ → Sender T → System T → System T
  at i p s = record s { senders = set i p s.senders }

  -- `send`, the look at the flag
  abbrev pub looked : ℕ → T → System T → System T
  looked i m s = at i (if s.channel.disconnected then outside else ready m) s

  -- `send`, the critical section
  abbrev pub tried : ℕ → T → System T → System T
  tried i m s =
      if s.channel.waker
      then elim (push m s.channel).0 [
        | some m' ↦ at i (full m') s
        | none ↦
            at i outside (record s { channel = (push m s.channel).1; sent = s.sent ++ (m ∷ []) })
      ]
      else at i outside s

  pub tried-gone :
      (i : ℕ) (m : T) (s : System T) → s.channel.waker ≡ false → tried i m s ≡ at i outside s
  tried-gone i m s w = ground arith

  pub tried-full :
      (i : ℕ) (m : T) (s : System T)
      → s.channel.waker ≡ true
      → ltb (length s.channel.list) s.channel.cap ≡ false
      → tried i m s ≡ at i (full m) s
  unfolding push
  tried-full i m s w f = ground arith

  pub tried-room :
      (i : ℕ) (m : T) (s : System T)
      → s.channel.waker ≡ true
      → ltb (length s.channel.list) s.channel.cap ≡ true
      → tried i m s
        ≡ at i outside (record s {
          channel = record s.channel { list = s.channel.list ++ (m ∷ []) };
          sent = s.sent ++ (m ∷ []);
        })
  unfolding push
  tried-room i m s w f = ground arith

  -- `wait`, the look at the flag, the push, and `Thread::park`
  abbrev pub waited : ℕ → T → System T → System T
  waited i m s = at i (if s.channel.disconnected then looking m else connected m) s

  abbrev pub listed : ℕ → T → System T → System T
  listed i m s =
      at i (enlisted m (enlist s.channel).0) (record s { channel = (enlist s.channel).1 })

  abbrev pub parking : ℕ → T → ℕ → System T → System T
  parking i m k s = at i (if s.channel.unparked k then looking m else parked m k) s

  -- The steps of `receive`
  abbrev pub popped : System T → System T
  popped s = record s {
    channel = (pop s.channel).1;
    receiver = elim (pop s.channel).0 [ none ↦ empty | some _ ↦ found ];
    received = s.received ++ to_list (pop s.channel).0;
  }

  abbrev pub woken : Receiver → System T → System T
  woken p s = record s { channel = wakeup_one s.channel; receiver = p }

  abbrev pub checked : System T → System T
  checked s = record s { receiver = (if s.channel.disconnected then round else open_ended) }

  -- A handle of a sender may be cloned and dropped at any time.
  pub data Step (s : System T) : System T → Type ℓ where
    begin : (i : ℕ) (m : T) → s.senders i ≡ outside → Step s (at i (looking m) s)
    look : (i : ℕ) (m : T) → s.senders i ≡ looking m → Step s (looked i m s)
    try_push : (i : ℕ) (m : T) → s.senders i ≡ ready m → Step s (tried i m s)
    wait : (i : ℕ) (m : T) → s.senders i ≡ full m → Step s (waited i m s)
    list_thread : (i : ℕ) (m : T) → s.senders i ≡ connected m → Step s (listed i m s)
    park : (i : ℕ) (m : T) (k : ℕ) → s.senders i ≡ enlisted m k → Step s (parking i m k s)
    unpark :
        (i : ℕ) (m : T) (k : ℕ)
        → s.senders i ≡ parked m k
        → s.channel.unparked k ≡ true
        → Step s (at i (looking m) s)
    clone : Step s (record s { channel = clone_sender s.channel })
    release : Step s (record s { channel = release_sender s.channel })
    take : s.receiver ≡ round → Step s (popped s)
    wake_found : s.receiver ≡ found → Step s (woken round s)
    check : s.receiver ≡ empty → Step s (checked s)
    wake_empty : s.receiver ≡ open_ended → Step s (woken waiting s)
    stop_waiting : s.receiver ≡ waiting → Step s (record s { receiver = round })
    drop_receiver :
        s.receiver ≡ round
        → Step s (record s { channel = disconnect s.channel; receiver = dropping })
    wake_all : s.receiver ≡ dropping → s.channel.threads ≢ [] → Step s (woken dropping s)
    finish_drop :
        s.receiver ≡ dropping
        → s.channel.threads ≡ []
        → Step s (record s { channel = drop_waker s.channel; receiver = gone })

  pub data Reach (cap : ℕ) : System T → Type ℓ where
    start : Reach cap (init cap)
    next : {s t : System T} → Reach cap s → Step s t → Reach cap t

  -- What is reached from a state
  pub data Leads (s : System T) : System T → Type ℓ where
    here : Leads s s
    then_step : {t u : System T} → Leads s t → Step t u → Leads s u
