-- ===== src/Cbus/Oneshot/System/Laws.antt =====
-- What `receive` of tarantool/src/cbus/oneshot.rs ends with, and when it does not end.
use tarantool_module.Base.{◌<◌, ◌≡◌, ◌≢◌, ◌⊎◌, refl, Bool, true, false, Option, none, some, arith}
use tarantool_module.Cbus.Oneshot.{
  channel, put, set_ready, drop_sender, begin_receive, take_message, drop_receiver,
}
use tarantool_module.Cbus.Oneshot.System.{
  System, alive, written, stored, gone, Receiver, idle, waiting, taking, result, receiving, handled,
  put_in, Step, sending, storing, dropping, begin, waking, take, handling, dropping_receiver, Reach,
  start, next,
}

module _ {ℓ} {T : Type ℓ} where
  abbrev pub in_receive : Receiver T → Bool
  in_receive waiting = true
  in_receive taking = true
  in_receive _ = false

  abbrev pub answer : Receiver T → Option (Option T)
  answer (result m) = some m
  answer _ = none

  pub record Inv (spurious : Bool) (s : System T) : Type ℓ where
    pub unsent : s.sender ≡ alive → (s.sent ≡ none) × (s.channel.signals ≡ 0)
    pub attached : in_receive s.receiver ≡ true → s.channel.receiver ≡ true
    pub idle_open : s.receiver ≡ idle → s.channel.receiver ≡ true
    pub kept : s.channel.receiver ≡ true → s.channel.message ≡ s.sent
    pub flagged :
        s.receiver ≡ idle
        → (s.sender ≡ stored) ⊎ ((s.sender ≡ gone) × (s.sent ≢ none))
        → s.channel.ready ≡ true
    pub pending : s.sender ≡ written → s.sent ≢ none
    pub early : s.channel.ready ≡ true → s.sent ≢ none
    pub quiet : 0 < s.channel.signals → s.sender ≡ gone
    pub woken : s.receiver ≡ waiting → s.sender ≡ gone → s.sent ≢ none → 0 < s.channel.signals
    pub ready_taking :
        s.receiver ≡ taking → ((s.sender ≡ gone) ⊎ (s.sent ≢ none)) ⊎ (spurious ≡ true)
    pub told :
        (m : Option T)
        → s.receiver ≡ result m
        → ((m ≡ s.sent) × ((s.sender ≡ gone) ⊎ (s.sent ≢ none))) ⊎ ((m ≡ none) × (spurious ≡ true))

  Step-Inv : {b : Bool} {s t : System T} → Step b s t → Inv b s → Inv b t
  unfolding put set_ready drop_sender begin_receive take_message drop_receiver
  Step-Inv {b} {s} (sending m e) h = ground arith
  Step-Inv {b} {s} (storing e) h = ground arith
  Step-Inv {b} {s} (dropping e) h = ground arith
  Step-Inv {b} {s} (begin e) h = ground arith
  Step-Inv {b} {s} (waking w e) h = ground arith
  Step-Inv {b} {s} (take e) h = ground arith
  Step-Inv {b} {s} (handling l) h = ground arith
  Step-Inv {b} {s} (dropping_receiver e) h = ground arith

  Reach-Inv : {b : Bool} {s : System T} → Reach b s → Inv b s
  unfolding channel
  Reach-Inv start = ground arith
  Reach-Inv (next r st) = Step-Inv st (Reach-Inv r)

  -- Whatever the order of the steps, the result of `receive` is the message of `send`, or
  -- `Disconnected` if the sender was dropped without one; only where the fiber may be woken without a
  -- signal, the result may be `Disconnected` in any case. And a receiver that waits for a sender that
  -- has sent and is dropped has a signal on the bus, with which it goes on to that message.
  pub result-sent :
      (spurious : Bool) (s : System T)
      → Reach spurious s
      → ((m : Option T)
          → s.receiver ≡ result m
          → ((m ≡ s.sent) × ((s.sender ≡ gone) ⊎ (s.sent ≢ none)))
            ⊎ ((m ≡ none) × (spurious ≡ true)))
        × (s.receiver ≡ waiting
            → s.sender ≡ gone
            → s.sent ≢ none
            → (0 < s.channel.signals)
              × ((handled s).receiver ≡ taking)
              × (s.channel.message ≡ s.sent))
  result-sent b s r =
      let h = Reach-Inv r in
      (h.told, λ w g n. (h.woken w g n, rw w refl, ground (arith, h.kept, h.attached)))

  -- A receiver that waits and is woken without a signal answers `Disconnected` while the sender is
  -- there, and what that sends after it is lost.
  interrupted-disconnected :
      (m : T)
      → (s : System T) × Reach true s
        × (s.receiver ≡ result none)
        × (s.sender ≡ alive)
        × Reach true (put_in m s)
        × ((put_in m s).channel.message ≡ none)
  unfolding channel begin_receive take_message drop_receiver put
  interrupted-disconnected m =
      let r = next (next (next start (begin refl)) (waking refl refl)) (take refl) in
      (_, r, refl, refl, next r (sending m refl), refl)

  no_step :
      {s t : System T}
      → s.receiver ≡ waiting
      → s.sender ≡ gone
      → s.channel.signals ≡ 0
      → Step false s t
      → ⊥
  no_step w g n (sending m e) = ground arith
  no_step w g n (storing e) = ground arith
  no_step w g n (dropping e) = ground arith
  no_step w g n (begin e) = ground arith
  no_step w g n (waking b e) = cc
  no_step w g n (take e) = ground arith
  no_step w g n (handling l) = ground arith
  no_step w g n (dropping_receiver e) = ground arith

  -- If the sender was dropped without a message, and its signal was handled, before `receive` is
  -- called, then `receive` waits, and no step of the two sides or of the bus is left that could wake
  -- it; a wakeup of its fiber without a signal is not among those.
  pub dropped-waiting :
      (spurious : Bool) (s : System T)
      → Reach spurious s
      → s.receiver ≡ idle
      → s.sender ≡ gone
      → s.sent ≡ none
      → s.channel.signals ≡ 0
      → ((receiving s).receiver ≡ waiting) × ((t : System T) → Step false (receiving s) t → ⊥)
  unfolding begin_receive
  dropped-waiting b s r i g n z =
      let h = Reach-Inv r in
      let waits : (receiving s).receiver ≡ waiting = ground (arith, h.early) in
      (waits, λ t st. no_step waits g (ground arith) st)
