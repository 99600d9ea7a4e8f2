-- ===== src/Cbus/Unbounded/System/Wakeup.antt =====
-- The receiver of tarantool/src/cbus/unbounded.rs when it sleeps, and when it is told of a hang-up.
use mathlib.Core.Path.{subst}
use tarantool_module.Base.{
  ◌<◌, ◌≡◌, ◌≢◌, ◌⊎◌, inl, inr, refl, sym, Bool, true, false, Bool-cases, List, [], ◌∷◌, arith,
}
use tarantool_module.Cbus.Unbounded.{
  channel, wakeup, force_wakeup, wait, clone_sender, release_sender, drop_receiver,
}
use tarantool_module.Cbus.Unbounded.System.{
  System, Guard, to_wake, to_signal, round, asleep, Step, Reach, start, next, pushed-open,
  pushed-refused, popped, popped-empty, popped-cons, handled, sending, waking, signalling, cloning,
  dropping, releasing, popping, checking, waiting, handling, timing_out, dropping_receiver,
}

abbrev pub is_to_wake : Guard → Bool
is_to_wake (to_wake _) = true
is_to_wake _ = false

abbrev pub is_to_signal : Guard → Bool
is_to_signal (to_signal _) = true
is_to_signal _ = false

module _ {ℓ} {T : Type ℓ} where
  -- Behind an empty queue: a message that has come since has its wakeup done or under way. And a
  -- wakeup that was done while the receiver sleeps has its signal sent or under way.
  pub record Inv (s : System T) : Type ℓ where
    pub unread :
        s.pc ≢ round → s.channel.list ≢ [] → (is_to_wake s.guard ≡ true) ⊎ (s.channel.woken ≡ true)
    pub signalled :
        s.pc ≡ asleep
        → s.channel.woken ≡ true
        → (is_to_signal s.guard ≡ true) ⊎ (0 < s.channel.signals)

  Step-Inv : {s t : System T} → Step s t → Inv s → Inv t
  unfolding wakeup force_wakeup wait clone_sender release_sender drop_receiver
  Step-Inv {s} (sending m f l) h = elim (Bool-cases s.channel.waker) [
    | inl e ↦
        subst Inv (sym (pushed-open m s e))
          (record { unread = λ p n. inl refl; signalled = λ p w. ground (arith, h.signalled p w) })
    | inr e ↦ subst Inv (sym (pushed-refused m s e)) h
  ]
  Step-Inv {s} (waking d e) h = record {
    unread = λ p n. ground (arith, h.unread);
    signalled = λ p w. ground (arith, h.signalled);
  }
  Step-Inv {s} (signalling d e) h = record {
    unread = λ p n. ground (arith, h.unread);
    signalled = λ p w. ground (arith, h.signalled);
  }
  Step-Inv {s} (cloning l) h = record { unread = h.unread; signalled = h.signalled }
  Step-Inv {s} (dropping f l) h = record {
    unread = λ p n. ground (arith, h.unread);
    signalled = λ p w. ground (arith, h.signalled);
  }
  Step-Inv {s} (releasing l) h = record { unread = h.unread; signalled = h.signalled }
  Step-Inv {s} (popping e w) h = go s.channel.list refl
    where
      go : (l : List T) → s.channel.list ≡ l → Inv (popped s)
      go [] x =
          subst Inv (sym (popped-empty s x))
            (record { unread = λ p n. absurd (n x); signalled = λ p. absurd (cc) })
      go (m ∷ l) x =
          subst Inv (sym (popped-cons m l s x))
            (record { unread = λ p. absurd (p refl); signalled = λ p. absurd (cc) })
  Step-Inv {s} (checking e) h = record {
    unread = λ p n. ground (arith, h.unread);
    signalled = λ p w. ground (arith, h.signalled);
  }
  Step-Inv {s} (waiting e) h = record {
    unread = λ p n. ground (arith, h.unread);
    signalled = λ p w. ground (arith, h.signalled);
  }
  Step-Inv {s} (handling l) h = record {
    unread = λ p n. ground (arith, h.unread);
    signalled = λ p w. ground (arith, h.signalled);
  }
  Step-Inv (timing_out e) h = record { unread = λ p. absurd (p refl); signalled = λ p. absurd (cc) }
  Step-Inv {s} (dropping_receiver f e) h = record {
    unread = λ p n. absurd (p e);
    signalled = λ p. absurd (cc);
  }

  Reach-Inv : {s : System T} → Reach s → Inv s
  unfolding channel
  Reach-Inv start = record { unread = λ p. absurd (p refl); signalled = λ p. absurd (cc) }
  Reach-Inv (next r st) = Step-Inv st (Reach-Inv r)

  -- No wakeup is lost: if the receiver sleeps while there is a message, then a sender is in its
  -- critical section and is to signal, or a signal is on the bus, which wakes the receiver when it
  -- is handled, before any time-out.
  pub asleep-handled :
      (s : System T)
      → Reach s
      → s.pc ≡ asleep
      → s.channel.list ≢ []
      → ((is_to_wake s.guard ≡ true) × (s.channel.woken ≡ false))
        ⊎ ((is_to_signal s.guard ≡ true) ⊎ ((0 < s.channel.signals) × ((handled s).pc ≡ round)))
  asleep-handled s r p n =
      let h = Reach-Inv r in
      elim (Bool-cases s.channel.woken) [
        | inl w ↦ elim (h.signalled p w) [ inl g ↦ inr (inl g) | inr l ↦ inr (inr (l, rw p refl)) ]
        | inr w ↦ ground (arith, h.unread (λ e. cc) n)
      ]
