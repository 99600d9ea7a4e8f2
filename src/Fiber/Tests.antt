-- ===== src/Fiber/Tests.antt =====
-- The theorems on tarantool/src/fiber/async at concrete histories.
use tarantool_module.Fiber.Runtime.{Runtime}
use tarantool_module.Base.{
  ℕ, zero, suc, ◌≡◌, ◌≢◌, ◌+◌, ◌≤◌, ◌<◌, ◌⊎◌, refl, List, [], ◌∷◌, ◌++◌, some, none, true, false,
  arith, length, not, if◌then◌else◌,
}
use tarantool_module.Fiber.Oneshot
use tarantool_module.Fiber.Oneshot.{wake}
use tarantool_module.Fiber.Oneshot.Laws as Oneshots
use tarantool_module.Fiber.Oneshot.Laws.{
  Event, polled, sent, accepted, delivered, held, first_waiting, accepted-delivered,
  first_waiting-woken,
}
use tarantool_module.Fiber.Watch
use tarantool_module.Fiber.Watch.Laws.{
  Op, sending, polling, subscribing, borrowing, releasing, run, send_all, last_or, is_empty,
  waiting-woken, poll-send_all,
}
use tarantool_module.Fiber.Mutex.System as Locks
use tarantool_module.Fiber.Mutex.System.{System, init, polled as lock_polled, tried}
use tarantool_module.Fiber.Mutex.Liveness.{
  IsNext, owners, queued, no_deadlock, owners-wakers, cancelled-deadlock,
}

-- Two tasks poll a receiver in turn.
abbrev waited : Oneshot.Channel ℕ
waited = record { cell = Oneshot.pending (some 3); sender = true; receiver = true }

abbrev waits : List (Event ℕ)
waits = polled 4 Oneshot.waiting ∷ polled 3 Oneshot.waiting ∷ []

waited-Reach : Oneshots.Reach waits waited
unfolding Oneshot.poll Oneshot.channel
waited-Reach = Oneshots.polling (Oneshots.polling Oneshots.start refl 3) refl 4

first_waiting-woken_example :
    ((Oneshot.send 9 waited).0 ≡ none)
    × ((Oneshot.send 9 waited).1 ≡ wake (first_waiting waits))
    × ((Oneshot.poll 4 (Oneshot.send 9 waited).2).0 ≡ Oneshot.received 9)
    × ((Oneshot.drop_sender waited).0 ≡ wake (first_waiting waits))
    × ((Oneshot.poll 4 (Oneshot.drop_sender waited).1).0 ≡ Oneshot.closed)
first_waiting-woken_example = first_waiting-woken waits waited 9 4 waited-Reach refl refl

abbrev filled : Oneshot.Channel ℕ
filled = record { cell = Oneshot.ready 9; sender = false; receiver = true }

filled-Reach : Oneshots.Reach (sent 9 none ∷ waits) filled
unfolding Oneshot.send Oneshot.put Oneshot.drop_sender
filled-Reach = Oneshots.sending waited-Reach refl 9

accepted-delivered_example :
    (accepted (sent 9 none ∷ waits) ≡ held filled.cell ++ delivered (sent 9 none ∷ waits))
    × (length (accepted (sent 9 none ∷ waits)) ≤ 1)
accepted-delivered_example = accepted-delivered (sent 9 none ∷ waits) filled filled-Reach refl

abbrev watched : Watch.State ℕ
watched = record {
  value = 10;
  version = 2;
  wakers = [];
  sender_exists = true;
  borrows = 0;
  receivers = 1;
}

watched-waits : (Watch.poll 5 2 watched).0 ≡ Watch.waiting
unfolding Watch.poll
watched-waits = refl

abbrev calls : List (Op ℕ)
calls = subscribing ∷ borrowing ∷ sending 11 ∷ releasing ∷ polling 6 2 ∷ []

waiting-woken_example :
    let later = run calls (Watch.poll 5 2 watched).2 in
    (later.1.borrows ≡ 0 → Watch.any_wakes 5 (later.0 ++ (Watch.send 12 later.1).1.0) ≡ true)
    × (Watch.any_wakes 5 (later.0 ++ (Watch.drop_sender later.1).0) ≡ true)
waiting-woken_example = waiting-woken 5 2 watched calls 12 watched-waits

poll-send_all_example :
    let t = send_all (11 ∷ 12 ∷ []) watched in
    (t.value ≡ last_or (11 ∷ 12 ∷ []) 10)
    × (Watch.has_changed 2 t ≡ not (is_empty {T = ℕ} (11 ∷ 12 ∷ [])))
    × ((Watch.poll 5 2 t).0
        ≡ (if is_empty {T = ℕ} (11 ∷ 12 ∷ []) then Watch.waiting else Watch.changed))
    × (Watch.has_changed (Watch.poll 5 2 t).1 t ≡ false)
    × ((Watch.poll 5 2 (Watch.drop_sender t).1).0 ≡ Watch.closed)
poll-send_all_example = poll-send_all (11 ∷ 12 ∷ []) watched 5 refl (omega arith) refl (omega arith)

abbrev contended : System ℕ
contended = lock_polled 2 (lock_polled 1 (tried (init 0)))

contended-Reach : Locks.Reach false false 0 contended
contended-Reach =
    Locks.next (Locks.next (Locks.next Locks.start Locks.trying) (Locks.locking 1))
      (Locks.locking 2)

no_deadlock_example :
    (contended.guards ≤ 1)
    × (false ≡ false
        → false ≡ false
        → contended.waiting ≢ []
        → (0 < contended.guards) ⊎ IsNext contended)
no_deadlock_example = no_deadlock false false 0 contended contended-Reach

-- The lock is held, and two tasks wait.
abbrev two_waiting : System ℕ
two_waiting = record {
  mutex = record { locked = true; wakers = 1 ∷ 2 ∷ []; contents = 0 };
  guards = 1;
  waiting = 1 ∷ 2 ∷ [];
  woken = [];
}

owners-wakers_example :
    owners (length {A = ℕ} (1 ∷ 2 ∷ 4 ∷ 3 ∷ [])) (queued (4 ∷ 3 ∷ []) two_waiting)
    ≡ 1 ∷ 2 ∷ 4 ∷ 3 ∷ []
owners-wakers_example = owners-wakers (1 ∷ 2 ∷ []) (4 ∷ 3 ∷ []) two_waiting refl refl refl refl

cancelled-deadlock_example :
    (s : System ℕ) × Locks.Reach true false 0 s
    × (s.guards ≡ 0)
    × (s.mutex.locked ≡ false)
    × (s.mutex.wakers ≡ 1 ∷ 2 ∷ [])
    × (s.waiting ≡ 1 ∷ 2 ∷ [])
    × (s.woken ≡ [])
cancelled-deadlock_example = cancelled-deadlock 0 (1 ∷ 2 ∷ [])

-- The world is the time and how many waits will end at once; behind those a wait lasts as long as
-- it was meant to.
abbrev pause : ℕ → ℕ × ℕ → ℕ × ℕ
pause t (now, zero) = (now + t, zero)
pause t (now, suc early) = (now, early)

abbrev interrupted : Runtime (ℕ × ℕ)
interrupted = record { clock = λ w. w.0; wait_timeout = pause; coio_wait = λ fd t. pause t }

abbrev opened : Oneshot.Channel ℕ
opened = record { cell = Oneshot.pending none; sender = true; receiver = true }
