-- ===== src/Fiber/Watch.antt =====
-- tarantool/src/fiber/async/watch.rs: a channel that keeps the last value. A receiver is given by
-- the version that it has seen.
pub mod Laws
use tarantool_module.Base.{
  ℕ, ◌+◌, ◌-◌, ◌%◌, ◌^◌, Bool, true, false, not, List, [], ◌∷◌, ◌++◌, Option, none, some, ◌==◌,
  if◌then◌else◌,
}

-- The shared state. `borrows` counts the references to the value that are alive, `receivers` the
-- receivers, for the strong count of the state.
pub record State {ℓ} (T : Type ℓ) : Type ℓ where
  pub value : T
  pub version : ℕ
  pub wakers : List ℕ
  pub sender_exists : Bool
  pub borrows : ℕ
  pub receivers : ℕ

-- `Poll<Result<(), RecvError>>`
pub data Poll : Type 0 where
  waiting changed closed : Poll

-- `wakers.iter().any(|w| waker.will_wake(w))`
abbrev pub any_wakes : ℕ → List ℕ → Bool
any_wakes task [] = false
any_wakes task (w ∷ ws) = if w == task then true else any_wakes task ws

module _ {ℓ} {T : Type ℓ} where
  pub channel : T → State T
  channel initial = record {
    value = initial;
    version = 0;
    wakers = [];
    sender_exists = true;
    borrows = 0;
    receivers = 1;
  }

  unfoldable pub add_waker : ℕ → State T → State T
  add_waker task s =
      if any_wakes task s.wakers then s else record s { wakers = s.wakers ++ (task ∷ []) }

  -- `wake_all` wakes every waker and drains the list.
  pub wake_all : State T → List ℕ × State T
  wake_all s = (s.wakers, record s { wakers = [] })

  -- `Sender::subscribe`, and `Clone` of a receiver
  pub subscribe : State T → ℕ × State T
  subscribe s = (s.version, record s { receivers = s.receivers + 1 })

  pub drop_receiver : State T → State T
  drop_receiver s = record s { receivers = s.receivers - 1 }

  -- `borrow`, and the end of the reference
  pub borrow : State T → T × State T
  borrow s = (s.value, record s { borrows = s.borrows + 1 })

  pub release : State T → State T
  release s = record s { borrows = s.borrows - 1 }

  -- `Sender::send`: the value is returned if someone holds a reference.
  pub send : T → State T → Option T × (List ℕ × State T)
  unfolding wake_all
  send v s =
      if s.borrows == 0
      then (none, wake_all (record s { value = v; version = (s.version + 1) % 2 ^ 64 }))
      else (some v, ([], s))

  -- `Sender::send_modify`; the answer is whether the value could be borrowed.
  pub send_modify : (T → T) → State T → Bool × (List ℕ × State T)
  unfolding wake_all
  send_modify modify s =
      if s.borrows == 0
      then (
        true,
        wake_all (record s { value = modify s.value; version = (s.version + 1) % 2 ^ 64 }),
      )
      else (false, ([], s))

  -- `Sender::is_closed`: the count of strong references is one.
  pub is_closed : State T → Bool
  is_closed s = s.receivers + 1 == 1

  pub drop_sender : State T → List ℕ × State T
  unfolding wake_all
  drop_sender s = wake_all (record s { sender_exists = false })

  pub has_changed : ℕ → State T → Bool
  has_changed seen s = not (s.version == seen)

  pub mark_seen : ℕ → State T → ℕ
  mark_seen seen s = s.version

  -- `Notification::poll`, with the seen version that the receiver then has
  unfoldable pub poll : ℕ → ℕ → State T → Poll × ℕ × State T
  unfolding add_waker
  poll task seen s =
      if s.sender_exists
      then (if s.version == seen
          then (waiting, seen, add_waker task s)
          else (changed, s.version, s))
      else (closed, seen, s)
