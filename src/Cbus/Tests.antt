-- ===== src/Cbus/Tests.antt =====
-- The theorems on the channels of tarantool/src/cbus at concrete runs.
use tarantool_module.Cbus.Sync.System.Order.{sent-bounded}
use tarantool_module.Cbus.Sync.System.Parked.{parked-woken}
use tarantool_module.Cbus.Sync.System.Dropped.{dropped-parked}
use tarantool_module.Base.{
  ℕ, ◌<◌, ◌≤◌, length, ◌≡◌, ◌≢◌, ◌⊎◌, inl, refl, true, false, [], ◌∷◌, ◌++◌, Option, none, arith,
}
use tarantool_module.Cbus.Sync as Sync
use tarantool_module.Cbus.Sync.System as Threads
use tarantool_module.Cbus.Unbounded as Unbounded
use tarantool_module.Cbus.Unbounded.System as Queues
use tarantool_module.Cbus.Unbounded.System.Order.{sent-received}
use tarantool_module.Cbus.Unbounded.System.Wakeup.{is_to_wake, is_to_signal, asleep-handled}
use tarantool_module.Cbus.Unbounded.System.HangUp.{disconnected-unread}
use tarantool_module.Cbus.Oneshot as Oneshot
use tarantool_module.Cbus.Oneshot.System as Cells
use tarantool_module.Cbus.Oneshot.System.Laws.{result-sent, dropped-waiting}

-- The receiver falls asleep, and a message comes.
abbrev sleeping : Queues.System ℕ
sleeping = Queues.waited (Queues.checked (Queues.popped Queues.init))

abbrev sent_to : Queues.System ℕ
sent_to = Queues.signalled false (Queues.woken false (Queues.pushed 5 sleeping))

sent_to-Reach : Queues.Reach sent_to
unfolding Unbounded.channel Unbounded.push Unbounded.pop Unbounded.wait Unbounded.wakeup
sent_to-Reach =
    Queues.next
      (Queues.next
        (Queues.next
          (Queues.next
            (Queues.next (Queues.next Queues.start (Queues.popping refl refl))
              (Queues.checking refl))
            (Queues.waiting refl))
          (Queues.sending 5 refl (omega arith)))
        (Queues.waking false refl))
      (Queues.signalling false refl)

sent-received_example :
    (sent_to.sent ≡ sent_to.received ++ sent_to.channel.list)
    × (sent_to.hung_up ≡ true → sent_to.channel.senders ≡ 0)
sent-received_example = sent-received sent_to sent_to-Reach

sent_to_asleep : (sent_to.pc ≡ Queues.asleep) × (sent_to.channel.list ≢ [])
unfolding Unbounded.channel Unbounded.push Unbounded.pop Unbounded.wait Unbounded.wakeup
    Unbounded.force_wakeup
sent_to_asleep = (refl, λ e. cc)

asleep-handled_example :
    ((is_to_wake sent_to.guard ≡ true) × (sent_to.channel.woken ≡ false))
    ⊎ ((is_to_signal sent_to.guard ≡ true)
        ⊎ ((0 < sent_to.channel.signals) × ((Queues.handled sent_to).pc ≡ Queues.round)))
asleep-handled_example = asleep-handled sent_to sent_to-Reach sent_to_asleep.0 sent_to_asleep.1

-- The sender is dropped, and its signal handled, before `receive`.
abbrev left : Cells.System ℕ
left = Cells.handled (Cells.sender_dropped Cells.init)

left-Reach : Cells.Reach false left
unfolding Oneshot.channel Oneshot.drop_sender
left-Reach =
    Cells.next (Cells.next Cells.start (Cells.dropping (inl refl))) (Cells.handling (omega arith))

-- A message is sent and received.
abbrev taken_one : Cells.System ℕ
taken_one = Cells.taken (Cells.receiving (Cells.stored_in (Cells.put_in 7 Cells.init)))

taken_one-Reach : Cells.Reach false taken_one
unfolding Oneshot.channel Oneshot.put Oneshot.set_ready Oneshot.begin_receive
taken_one-Reach =
    Cells.next
      (Cells.next (Cells.next (Cells.next Cells.start (Cells.sending 7 refl)) (Cells.storing refl))
        (Cells.begin refl))
      (Cells.take refl)

result-sent_example :
    ((m : Option ℕ)
      → taken_one.receiver ≡ Cells.result m
      → ((m ≡ taken_one.sent) × ((taken_one.sender ≡ Cells.gone) ⊎ (taken_one.sent ≢ none)))
        ⊎ ((m ≡ none) × (false ≡ true)))
    × (taken_one.receiver ≡ Cells.waiting
        → taken_one.sender ≡ Cells.gone
        → taken_one.sent ≢ none
        → (0 < taken_one.channel.signals)
          × ((Cells.handled taken_one).receiver ≡ Cells.taking)
          × (taken_one.channel.message ≡ taken_one.sent))
result-sent_example = result-sent false taken_one taken_one-Reach

disconnected-unread_example :
    (s : Queues.System ℕ) × Queues.Reach s
    × (s.hung_up ≡ true)
    × (s.received ≡ [])
    × (s.channel.list ≡ 5 ∷ 6 ∷ [])
disconnected-unread_example = disconnected-unread 5 (6 ∷ [])

left_quiet : left.channel.signals ≡ 0
unfolding Oneshot.channel Oneshot.drop_sender
left_quiet = refl

dropped-waiting_example :
    ((Cells.receiving left).receiver ≡ Cells.waiting)
    × ((t : Cells.System ℕ) → Cells.Step false (Cells.receiving left) t → ⊥)
dropped-waiting_example = dropped-waiting false left left-Reach refl refl refl left_quiet

-- A thread has sent, and another one's message does not fit, so that it parks.
abbrev one_sent : Threads.System ℕ
one_sent =
    Threads.tried 0 7 (Threads.looked 0 7 (Threads.at 0 (Threads.looking 7) (Threads.init 1)))

abbrev one_refused : Threads.System ℕ
one_refused = Threads.tried 1 8 (Threads.looked 1 8 (Threads.at 1 (Threads.looking 8) one_sent))

abbrev one_parked : Threads.System ℕ
one_parked = Threads.parking 1 8 0 (Threads.listed 1 8 (Threads.waited 1 8 one_refused))

one_sent-Reach : Threads.Reach 1 one_sent
unfolding Sync.channel Sync.push
one_sent-Reach =
    Threads.next
      (Threads.next (Threads.next Threads.start (Threads.begin 0 7 refl)) (Threads.look 0 7 refl))
      (Threads.try_push 0 7 refl)

one_refused-Reach : Threads.Reach 1 one_refused
unfolding Sync.channel Sync.push
one_refused-Reach =
    Threads.next
      (Threads.next (Threads.next one_sent-Reach (Threads.begin 1 8 refl)) (Threads.look 1 8 refl))
      (Threads.try_push 1 8 refl)

one_parked-Reach : Threads.Reach 1 one_parked
unfolding Sync.channel Sync.push Sync.enlist
one_parked-Reach =
    Threads.next
      (Threads.next (Threads.next one_refused-Reach (Threads.wait 1 8 refl))
        (Threads.list_thread 1 8 refl))
      (Threads.park 1 8 0 refl)

is_parked : one_parked.senders 1 ≡ Threads.parked 8 0
unfolding Sync.channel Sync.push Sync.enlist
is_parked = refl

sent-bounded_example :
    (length one_sent.channel.list ≤ 1)
    × (one_sent.sent ≡ one_sent.received ++ one_sent.channel.list)
sent-bounded_example = sent-bounded 1 one_sent one_sent-Reach

parked-woken_example :
    ((Sync.wakeup_all one_parked.channel).threads ≡ [])
    × ((Sync.wakeup_all one_parked.channel).unparked 0 ≡ true)
parked-woken_example = parked-woken 1 one_parked 1 0 8 one_parked-Reach is_parked

dropped-parked_example :
    (s : Threads.System ℕ) × Threads.Reach 1 s
    × (s.receiver ≡ Threads.gone)
    × ((t : Threads.System ℕ) → Threads.Leads s t → t.senders 0 ≡ Threads.parked 8 0)
dropped-parked_example = dropped-parked 7 8
