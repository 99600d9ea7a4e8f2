-- ===== src/Fiber/Oneshot.antt =====
-- tarantool/src/fiber/async/oneshot.rs: a channel for one value. The cell is shared by a strong
-- reference, the receiver's, and a weak one, the sender's.
pub mod Laws
use tarantool_module.Base.{
  ℕ, Bool, true, false, List, [], ◌∷◌, ◌++◌, Option, none, some, if◌then◌else◌,
}

pub data State {ℓ} (T : Type ℓ) : Type ℓ where
  pending : Option ℕ → State T
  ready : T → State T

-- The cell, and which of the two handles are alive.
pub record Channel {ℓ} (T : Type ℓ) : Type ℓ where
  pub cell : State T
  pub sender : Bool
  pub receiver : Bool

-- `Poll<Result<T, RecvError>>`
pub data Poll {ℓ} (T : Type ℓ) : Type ℓ where
  waiting closed : Poll T
  received : T → Poll T

-- `get_or_insert_with`
abbrev pub get_or_insert : Option ℕ → ℕ → ℕ
get_or_insert (some waker) task = waker
get_or_insert none task = task

abbrev pub wake : Option ℕ → List ℕ
wake (some waker) = waker ∷ []
wake none = []

module _ {ℓ} {T : Type ℓ} where
  unfoldable pub channel : Channel T
  channel = record { cell = pending none; sender = true; receiver = true }

  -- `Receiver::poll`; `cell.take()` leaves `Pending(None)`.
  unfoldable pub poll : ℕ → Channel T → Poll T × Channel T
  poll task c = elim c.cell [
    | ready v ↦ (received v, record c { cell = pending none })
    | pending waker ↦
        if c.sender
        then (waiting, record c { cell = pending (some (get_or_insert waker task)) })
        else (closed, record c { cell = pending none })
  ]

  -- `Drop` of the sender, and the end of its weak reference.
  unfoldable pub drop_sender : Channel T → List ℕ × Channel T
  drop_sender c =
      let gone : Channel T = record c { sender = false } in
      if c.receiver
      then elim c.cell [
        | ready v ↦ ([], gone)
        | pending waker ↦ (wake waker, record gone { cell = pending none })
      ]
      else ([], gone)

  -- `Sender::send` up to its end; a value that is not accepted is returned.
  unfoldable pub put : T → Channel T → Option T × List ℕ × Channel T
  put v c =
      if c.receiver
      then elim c.cell [
        | ready _ ↦ (none, [], record c { cell = ready v })
        | pending waker ↦ (none, wake waker, record c { cell = ready v })
      ]
      else (some v, [], c)

  -- `Sender::send`, which drops the sender at its end.
  unfoldable pub send : T → Channel T → Option T × List ℕ × Channel T
  unfolding put drop_sender
  send v c =
      let placed = put v c in
      let dropped = drop_sender placed.2 in (placed.0, placed.1 ++ dropped.0, dropped.1)

  -- The receiver's reference is the only strong one, so the cell goes with it.
  unfoldable pub drop_receiver : Channel T → Channel T
  drop_receiver c = record c { receiver = false }
