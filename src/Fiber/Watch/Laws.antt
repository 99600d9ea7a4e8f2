-- ===== src/Fiber/Watch/Laws.antt =====
-- The channel of tarantool/src/fiber/async/watch.rs: what receivers see, and who is woken.
use mathlib.Core.List.{append_assoc}
use tarantool_module.Base.{
  ℕ, ◌+◌, ◌%◌, ◌^◌, ◌<◌, ◌≡◌, refl, Bool, true, false, not, ◌||◌, List, [], ◌∷◌, ◌++◌, arith,
  length, if◌then◌else◌, ◌∙◌, inl, inr, Bool-cases,
}
use tarantool_module.Fiber.Watch.{
  State, waiting, changed, closed, any_wakes, add_waker, wake_all, subscribe, drop_receiver, borrow,
  release, send, send_modify, drop_sender, has_changed, poll,
}

-- A call on the channel.
pub data Op {ℓ} (T : Type ℓ) : Type ℓ where
  sending : T → Op T
  modifying : (T → T) → Op T
  polling : ℕ → ℕ → Op T
  subscribing leaving borrowing releasing dropping : Op T

any_wakes-append :
    (task : ℕ) (xs ys : List ℕ)
    → any_wakes task (xs ++ ys) ≡ (any_wakes task xs || any_wakes task ys)
any_wakes-append task [] ys = refl
any_wakes-append task (x ∷ xs) ys = ground (arith, any_wakes-append task xs ys)

any_wakes_self : (task : ℕ) (ws : List ℕ) → any_wakes task (ws ++ (task ∷ [])) ≡ true
any_wakes_self task [] = ground arith
any_wakes_self task (w ∷ ws) = ground (arith, any_wakes_self task ws)

or-false : (b : Bool) → (b || false) ≡ b
or-false b = ground arith

module _ {ℓ} {T : Type ℓ} where
  -- The tasks that a call wakes, and the state behind it.
  pub step : Op T → State T → List ℕ × State T
  unfolding send send_modify poll subscribe drop_receiver borrow release drop_sender wake_all
  step (sending v) s = (send v s).1
  step (modifying f) s = (send_modify f s).1
  step (polling task seen) s = ([], (poll task seen s).2)
  step subscribing s = ([], (subscribe s).1)
  step leaving s = ([], drop_receiver s)
  step borrowing s = ([], (borrow s).1)
  step releasing s = ([], release s)
  step dropping s = drop_sender s

  pub run : List (Op T) → State T → List ℕ × State T
  run [] s = ([], s)
  run (op ∷ ops) s =
      let first = step op s in let more = run ops first.1 in (first.0 ++ more.0, more.1)

  step-registered :
      (op : Op T) (s : State T) (task : ℕ)
      → any_wakes task s.wakers ≡ true
      → any_wakes task ((step op s).0 ++ (step op s).1.wakers) ≡ true
  unfolding step send send_modify poll subscribe drop_receiver borrow release drop_sender wake_all
      add_waker
  step-registered (sending v) s task h =
      ground (arith, any_wakes-append task s.wakers [], or-false (any_wakes task s.wakers))
  step-registered (modifying v) s task h =
      ground (arith, any_wakes-append task s.wakers [], or-false (any_wakes task s.wakers))
  step-registered (polling w seen) s task h =
      ground (arith, any_wakes-append task s.wakers (w ∷ []))
  step-registered dropping s task h =
      ground (arith, any_wakes-append task s.wakers [], or-false (any_wakes task s.wakers))
  step-registered subscribing s task h = h
  step-registered leaving s task h = h
  step-registered borrowing s task h = h
  step-registered releasing s task h = h

  run-registered :
      (ops : List (Op T)) (s : State T) (task : ℕ)
      → any_wakes task s.wakers ≡ true
      → any_wakes task ((run ops s).0 ++ (run ops s).1.wakers) ≡ true
  unfolding run
  run-registered [] s task h = h
  run-registered (op ∷ ops) s task h =
      let first = step op s in
      let more = run ops first.1 in
      rw (append_assoc first.0 more.0 more.1.wakers) (
        rw (any_wakes-append task first.0 (more.0 ++ more.1.wakers))
          (elim (Bool-cases (any_wakes task first.0)) [
            | inl e ↦ rw e refl
            | inr e ↦
                let later = run-registered ops first.1 task (
                  ground (
                    arith,
                    step-registered op s task h,
                    any_wakes-append task first.0 first.1.wakers,
                  )) in
                rw (e, later) refl
          ]))

  poll-registered :
      (task seen : ℕ) (s : State T)
      → (poll task seen s).0 ≡ waiting
      → any_wakes task (poll task seen s).2.wakers ≡ true
  unfolding poll add_waker
  poll-registered task seen s h = ground (arith, any_wakes_self task s.wakers)

  -- No wakeup is lost: a task whose poll had to wait has been woken once a value is sent, or the
  -- sender is dropped, whatever other calls come in between, those of other receivers, those that
  -- fail, and those that wake it earlier.
  pub waiting-woken :
      (task seen : ℕ) (s : State T) (ops : List (Op T)) (v : T)
      → (poll task seen s).0 ≡ waiting
      → let later = run ops (poll task seen s).2 in
        (later.1.borrows ≡ 0 → any_wakes task (later.0 ++ (send v later.1).1.0) ≡ true)
        × (any_wakes task (later.0 ++ (drop_sender later.1).0) ≡ true)
  unfolding send drop_sender wake_all
  waiting-woken task seen s ops v h =
      let kept = run-registered ops (poll task seen s).2 task (poll-registered task seen s h) in
      (λ e. rw e kept, kept)

  pub send_all : List T → State T → State T
  send_all [] s = s
  send_all (v ∷ vs) s = send_all vs (send v s).1.1

  abbrev pub last_or : List T → T → T
  last_or [] d = d
  last_or (v ∷ vs) d = last_or vs v

  abbrev pub is_empty : List T → Bool
  is_empty [] = true
  is_empty (_ ∷ _) = false

  -- The state after a value is sent that nobody's reference stops.
  abbrev replaced : T → State T → State T
  replaced v s = record s { value = v; version = (s.version + 1) % 2 ^ 64; wakers = [] }

  send-eq-replaced : (v : T) (s : State T) → s.borrows ≡ 0 → (send v s).1.1 ≡ replaced v s
  unfolding send wake_all
  send-eq-replaced v s b = ground arith

  record Sent (vs : List T) (s t : State T) : Type ℓ where
    value : t.value ≡ last_or vs s.value
    version : t.version ≡ (s.version + length vs) % 2 ^ 64
    exists : t.sender_exists ≡ s.sender_exists

  send_all-Sent :
      (vs : List T) (s : State T) → s.borrows ≡ 0 → s.version < 2 ^ 64 → Sent vs s (send_all vs s)
  unfolding send_all
  send_all-Sent [] s b h = record { value = refl; version = omega arith; exists = refl }
  send_all-Sent (v ∷ vs) s b h =
      let next = send_all-Sent vs (replaced v s) b (omega arith) in
      rw (send-eq-replaced v s b)
        (record { value = next.value; version = next.version ∙ omega arith; exists = next.exists })

  -- A receiver that is up to date, and behind whose back fewer than 2 ^ 64 values are sent, sees the
  -- last of them; it is told of a change exactly when there was one, in spite of the wrap of the
  -- version, and once it has polled there is no change left. If the sender is dropped first, the
  -- poll answers that the channel is closed, also when there was a change.
  pub poll-send_all :
      (vs : List T) (s : State T) (task : ℕ)
      → s.borrows ≡ 0
      → s.version < 2 ^ 64
      → s.sender_exists ≡ true
      → length vs < 2 ^ 64
      → let t = send_all vs s in
        (t.value ≡ last_or vs s.value)
        × (has_changed s.version t ≡ not (is_empty vs))
        × ((poll task s.version t).0 ≡ (if is_empty vs then waiting else changed))
        × (has_changed (poll task s.version t).1 t ≡ false)
        × ((poll task s.version (drop_sender t).1).0 ≡ closed)
  unfolding has_changed poll drop_sender wake_all
  poll-send_all [] s task b h e n = ground (arith, send_all-Sent [] s b h)
  poll-send_all (v ∷ vs) s task b h e n = ground (arith, send_all-Sent (v ∷ vs) s b h)
