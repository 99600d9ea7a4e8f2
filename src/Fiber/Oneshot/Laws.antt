-- ===== src/Fiber/Oneshot/Laws.antt =====
-- The channel of tarantool/src/fiber/async/oneshot.rs over any history of its two handles.
use tarantool_module.Base.{
  ℕ, ◌≤◌, ◌≡◌, true, List, [], ◌∷◌, ◌++◌, Option, none, some, arith, length,
}
use tarantool_module.Fiber.Oneshot.{
  State, pending, ready, Channel, Poll, waiting, closed, received, wake, channel, poll, drop_sender,
  put, send, drop_receiver,
}

-- What happened at the handles, with the answers.
pub data Event {ℓ} (T : Type ℓ) : Type ℓ where
  polled : ℕ → Poll T → Event T
  sent : T → Option T → Event T
  sender_dropped receiver_dropped : Event T

module _ {ℓ} {T : Type ℓ} where
  -- The channels after a history, the latest event first. A handle that is gone is not used.
  pub data Reach : List (Event T) → Channel T → Type ℓ where
    start : Reach [] channel
    polling :
        {log : List (Event T)} {c : Channel T}
        → Reach log c
        → c.receiver ≡ true
        → (task : ℕ) → Reach (polled task (poll task c).0 ∷ log) (poll task c).1
    sending :
        {log : List (Event T)} {c : Channel T}
        → Reach log c
        → c.sender ≡ true
        → (v : T) → Reach (sent v (send v c).0 ∷ log) (send v c).2
    dropping_sender :
        {log : List (Event T)} {c : Channel T}
        → Reach log c
        → c.sender ≡ true
        → Reach (sender_dropped ∷ log) (drop_sender c).1
    dropping_receiver :
        {log : List (Event T)} {c : Channel T}
        → Reach log c
        → c.receiver ≡ true
        → Reach (receiver_dropped ∷ log) (drop_receiver c)

  -- The values that `send` took, and those that the receiver got.
  abbrev pub accepted : List (Event T) → List T
  accepted [] = []
  accepted (sent v none ∷ log) = v ∷ accepted log
  accepted (_ ∷ log) = accepted log

  abbrev pub delivered : List (Event T) → List T
  delivered [] = []
  delivered (polled _ (received v) ∷ log) = v ∷ delivered log
  delivered (_ ∷ log) = delivered log

  abbrev pub held : State T → List T
  held (pending _) = []
  held (ready v) = v ∷ []

  -- The task of the first poll that had to wait.
  abbrev pub first_waiting : List (Event T) → Option ℕ
  first_waiting [] = none
  first_waiting (polled task waiting ∷ log) = elim (first_waiting log) [
    | none ↦ some task
    | some first ↦ some first
  ]
  first_waiting (_ ∷ log) = first_waiting log

  record Inv (log : List (Event T)) (c : Channel T) : Type ℓ where
    conserved : c.receiver ≡ true → accepted log ≡ held c.cell ++ delivered log
    fresh : c.sender ≡ true → accepted log ≡ []
    once : length (accepted log) ≤ 1
    kept : c.sender ≡ true → c.receiver ≡ true → c.cell ≡ pending (first_waiting log)

  polling-Inv :
      (log : List (Event T)) (c : Channel T) (task : ℕ)
      → Inv log c
      → c.receiver ≡ true
      → Inv (polled task (poll task c).0 ∷ log) (poll task c).1
  unfolding poll
  polling-Inv log c task h r = ground arith

  sending-Inv :
      (log : List (Event T)) (c : Channel T) (v : T)
      → Inv log c
      → c.sender ≡ true
      → Inv (sent v (send v c).0 ∷ log) (send v c).2
  unfolding send put drop_sender
  sending-Inv log c v h r = ground arith

  dropping-Inv :
      (log : List (Event T)) (c : Channel T)
      → Inv log c
      → c.sender ≡ true
      → Inv (sender_dropped ∷ log) (drop_sender c).1
  unfolding drop_sender
  dropping-Inv log c h r = ground arith

  Reach-Inv : {log : List (Event T)} {c : Channel T} → Reach log c → Inv log c
  unfolding channel drop_receiver
  Reach-Inv start = ground arith
  Reach-Inv (polling {log} {c} h r task) = polling-Inv log c task (Reach-Inv h) r
  Reach-Inv (sending {log} {c} h s v) = sending-Inv log c v (Reach-Inv h) s
  Reach-Inv (dropping_sender {log} {c} h s) = dropping-Inv log c (Reach-Inv h) s
  Reach-Inv (dropping_receiver {log} {c} h r) =
      let inv = Reach-Inv h in
      record { conserved = λ e. cc; fresh = inv.fresh; once = inv.once; kept = λ s e. cc }

  -- Over any history of the two handles `send` accepts at most one value, and while the receiver
  -- lives that value is either still in the cell or was received, once: none is lost, made up or
  -- handed out twice.
  pub accepted-delivered :
      (log : List (Event T)) (c : Channel T)
      → Reach log c
      → c.receiver ≡ true
      → (accepted log ≡ held c.cell ++ delivered log) × (length (accepted log) ≤ 1)
  accepted-delivered log c h r = let inv = Reach-Inv h in (inv.conserved r, inv.once)

  -- While both handles live, the end of the wait wakes the task whose poll was the first to wait,
  -- and no other, be it by `send`, after which the next poll has the value, or by the drop of the
  -- sender, after which the next poll has the error.
  pub first_waiting-woken :
      (log : List (Event T)) (c : Channel T) (v : T) (task : ℕ)
      → Reach log c
      → c.sender ≡ true
      → c.receiver ≡ true
      → ((send v c).0 ≡ none)
        × ((send v c).1 ≡ wake (first_waiting log))
        × ((poll task (send v c).2).0 ≡ received v)
        × ((drop_sender c).0 ≡ wake (first_waiting log))
        × ((poll task (drop_sender c).1).0 ≡ closed)
  unfolding send put drop_sender poll
  first_waiting-woken log c v task h s r = ground (arith, (Reach-Inv h).kept s r)
