-- ===== src/Cbus/Sync.antt =====
-- tarantool/src/cbus/sync/std.rs: a queue of bounded length from threads, which wait where it is full,
-- to a fiber. Each function is one atomic operation, or the part of the source's function between two
-- of them; how the fiber is woken is as in Cbus/Unbounded.
pub mod System
use tarantool_module.Base.{
  ℕ, zero, suc, ◌+◌, ◌-◌, Bool, true, false, List, [], ◌∷◌, ◌++◌, Option, none, some, ltb, ◌==◌,
  if◌then◌else◌, length,
}

-- A function changed at one place
abbrev pub set {ℓ} : {A : Type ℓ} → ℕ → A → (ℕ → A) → ℕ → A
set i a f j = if i == j then a else f j

-- The queue, which holds `cap` messages, and the flag of `Channel`; whether the receiver's reference
-- to the fiber's waker is there; the references to `SenderInner`. `threads` is the list of
-- `ThreadWaker`: a `Thread` is a number, the next one that is made being `made`, and `unparked` has
-- their flags.
pub record Channel {ℓ} (T : Type ℓ) : Type ℓ where
  pub list : List T
  pub cap : ℕ
  pub disconnected : Bool
  pub waker : Bool
  pub senders : ℕ
  pub threads : List ℕ
  pub made : ℕ
  pub unparked : ℕ → Bool

module _ {ℓ} {T : Type ℓ} where
  unfoldable pub channel : ℕ → Channel T
  channel cap = record {
    list = [];
    cap = cap;
    disconnected = false;
    waker = true;
    senders = 1;
    threads = [];
    made = 0;
    unparked = λ i. false;
  }

  -- The queue's `push`: a message is returned if the queue is full.
  unfoldable pub push : T → Channel T → Option T × Channel T
  push msg c =
      if ltb (length c.list) c.cap
      then (none, record c { list = c.list ++ (msg ∷ []) })
      else (some msg, c)

  -- The queue's `pop`
  unfoldable pub pop : Channel T → Option T × Channel T
  pop c = elim c.list [ [] ↦ (none, c) | msg ∷ rest ↦ (some msg, record c { list = rest }) ]

  -- `ThreadWaker::wait` behind its look at the flag: `Thread::current`, and the push
  unfoldable pub enlist : Channel T → ℕ × Channel T
  enlist c = (c.made, record c { threads = c.threads ++ (c.made ∷ []); made = c.made + 1 })

  -- `ThreadWaker::wakeup_one`, with `Thread::unpark`
  unfoldable pub wakeup_one : Channel T → Channel T
  wakeup_one c = elim c.threads [
    | [] ↦ c
    | k ∷ rest ↦ record c { threads = rest; unparked = set k true c.unparked }
  ]

  -- `ThreadWaker::wakeup_all`, the loop, whose rounds are the threads in the list
  unfoldable pub wakeup_rounds : ℕ → Channel T → Channel T
  wakeup_rounds zero c = c
  wakeup_rounds (suc n) c = wakeup_rounds n (wakeup_one c)

  unfoldable pub wakeup_all : Channel T → Channel T
  wakeup_all c = wakeup_rounds (length c.threads) c

  unfoldable pub clone_sender : Channel T → Channel T
  clone_sender c = record c { senders = c.senders + 1 }

  unfoldable pub release_sender : Channel T → Channel T
  release_sender c = record c {
    senders = c.senders - 1;
    disconnected = (if c.senders == 1 then true else c.disconnected);
  }

  -- `Drop` of the receiver: the flag, and at its end the waker
  unfoldable pub disconnect : Channel T → Channel T
  disconnect c = record c { disconnected = true }

  unfoldable pub drop_waker : Channel T → Channel T
  drop_waker c = record c { waker = false }
