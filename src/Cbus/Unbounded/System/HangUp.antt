-- ===== src/Cbus/Unbounded/System/HangUp.antt =====
-- The end of the senders of tarantool/src/cbus/unbounded.rs between the receiver's look at the queue
-- and its look at the flag.
use mathlib.Core.List.{append_assoc, append-nil}
use mathlib.Core.Path.{subst}
use tarantool_module.Base.{◌≡◌, refl, sym, true, false, List, [], ◌∷◌, ◌++◌, arith}
use tarantool_module.Cbus.Unbounded.{channel, wakeup, force_wakeup, push, pop, release_sender}
use tarantool_module.Cbus.Unbounded.System.{
  System, init, empty, Reach, start, next, sending, waking, signalling, dropping, releasing,
  popping, checking,
}

module _ {ℓ} {T : Type ℓ} where
  -- The receiver has found the queue empty, and some messages were sent since.
  filled : List T → System T
  filled ms = record init {
    channel = record channel { list = ms; woken = true; signals = 1 };
    pc = empty;
    sent = ms;
  }

  filled-first : (m : T) → Reach (filled (m ∷ []))
  unfolding filled push wakeup force_wakeup pop channel
  filled-first m =
      next
        (next (next (next start (popping refl refl)) (sending m refl (omega arith)))
          (waking false refl))
        (signalling false refl)

  filled-more : (m : T) (ms : List T) → Reach (filled ms) → Reach (filled (ms ++ (m ∷ [])))
  unfolding filled push wakeup channel
  filled-more m ms r = next (next r (sending m refl (omega arith))) (waking false refl)

  filled-Reach :
      (m : T) (ms before : List T)
      → Reach (filled (m ∷ before))
      → Reach (filled (m ∷ (before ++ ms)))
  filled-Reach m [] before r = subst (λ l. Reach (filled (m ∷ l))) (sym (append-nil before)) r
  filled-Reach m (x ∷ ms) before r =
      subst (λ l. Reach (filled (m ∷ l))) (append_assoc before (x ∷ []) ms)
        (filled-Reach m ms (before ++ (x ∷ [])) (filled-more x (m ∷ before) r))

  -- `receive` may answer `Disconnected` with any number of messages unread in the queue: it finds the
  -- queue empty, the last sender sends them and is dropped, and only then the flag is read.
  pub disconnected-unread :
      (m : T) (ms : List T)
      → (s : System T) × Reach s
        × (s.hung_up ≡ true)
        × (s.received ≡ [])
        × (s.channel.list ≡ m ∷ ms)
  unfolding filled wakeup release_sender channel
  disconnected-unread m ms = (
    _,
    next
        (next
          (next (next (filled-Reach m ms [] (filled-first m)) (dropping refl (omega arith)))
            (waking true refl))
          (releasing (omega arith)))
        (checking refl),
    refl,
    refl,
    refl,
  )
