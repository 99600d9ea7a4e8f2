-- ===== src/Cbus/Unbounded/System/Order.antt =====
-- What the receiver of tarantool/src/cbus/unbounded.rs gets, and in which order.
use mathlib.Core.List.{append_assoc, append-nil}
use mathlib.Core.Path.{subst}
use tarantool_module.Base.{
  ◌+◌, ◌≤◌, ◌≡◌, refl, sym, ap, ◌∙◌, true, List, [], ◌∷◌, ◌++◌, arith, Bool-cases, inl, inr,
}
use tarantool_module.Cbus.Unbounded.{
  channel, wakeup, force_wakeup, wait, push, pop, clone_sender, release_sender, drop_receiver,
}
use tarantool_module.Cbus.Unbounded.System.{
  System, Step, Reach, start, next, inside, popped, pushed-open, pushed-refused, popped-empty,
  popped-cons, sending, waking, signalling, cloning, dropping, releasing, popping, checking,
  waiting, handling, timing_out, dropping_receiver,
}

module _ {ℓ} {T : Type ℓ} where
  pub record Inv (s : System T) : Type ℓ where
    pub ordered : s.sent ≡ s.received ++ s.channel.list
    pub leavers : s.leaving + inside s.guard ≤ s.channel.senders
    pub closed : s.channel.disconnected ≡ true → s.channel.senders ≡ 0
    pub heard : s.hung_up ≡ true → s.channel.senders ≡ 0

  Step-Inv : {s t : System T} → Step s t → Inv s → Inv t
  unfolding push wakeup force_wakeup wait pop clone_sender release_sender drop_receiver
  Step-Inv {s} (sending m f l) h = elim (Bool-cases s.channel.waker) [
    | inl e ↦ subst Inv (sym (pushed-open m s e)) (record {
      ordered = ap (λ l. l ++ (m ∷ [])) h.ordered ∙ append_assoc s.received s.channel.list (m ∷ []);
      leavers = ground (arith, h.leavers);
      closed = h.closed;
      heard = h.heard;
    })
    | inr e ↦ subst Inv (sym (pushed-refused m s e)) h
  ]
  Step-Inv {s} (waking d e) h = record {
    ordered = ground (arith, h.ordered);
    leavers = ground (arith, h.leavers);
    closed = λ x. ground (arith, h.closed);
    heard = λ x. ground (arith, h.heard);
  }
  Step-Inv {s} (signalling d e) h = record {
    ordered = ground (arith, h.ordered);
    leavers = ground (arith, h.leavers);
    closed = λ x. ground (arith, h.closed);
    heard = λ x. ground (arith, h.heard);
  }
  Step-Inv {s} (cloning l) h = record {
    ordered = h.ordered;
    leavers = omega (arith, h.leavers);
    closed = λ x. ground (arith, h.closed);
    heard = λ x. ground (arith, h.heard);
  }
  Step-Inv {s} (dropping f l) h = record {
    ordered = ground (arith, h.ordered);
    leavers = ground (arith, h.leavers);
    closed = λ x. ground (arith, h.closed);
    heard = λ x. ground (arith, h.heard);
  }
  Step-Inv {s} (releasing l) h = record {
    ordered = h.ordered;
    leavers = ground (arith, h.leavers);
    closed = λ x. ground (arith, h.closed, h.leavers);
    heard = λ x. ground (arith, h.heard);
  }
  Step-Inv {s} (popping e w) h = go s.channel.list refl
    where
      go : (l : List T) → s.channel.list ≡ l → Inv (popped s)
      go [] x = subst Inv (sym (popped-empty s x)) (record {
        ordered = h.ordered ∙ ap (λ r. r ++ s.channel.list) (sym (append-nil s.received));
        leavers = h.leavers;
        closed = h.closed;
        heard = h.heard;
      })
      go (m ∷ l) x = subst Inv (sym (popped-cons m l s x)) (record {
        ordered =
            h.ordered ∙ ap (λ l. s.received ++ l) x ∙ sym (append_assoc s.received (m ∷ []) l);
        leavers = h.leavers;
        closed = h.closed;
        heard = h.heard;
      })
  Step-Inv {s} (checking e) h = record {
    ordered = ground (arith, h.ordered);
    leavers = ground (arith, h.leavers);
    closed = λ x. ground (arith, h.closed);
    heard = λ x. ground (arith, h.heard, h.closed);
  }
  Step-Inv {s} (waiting e) h = record {
    ordered = ground (arith, h.ordered);
    leavers = ground (arith, h.leavers);
    closed = λ x. ground (arith, h.closed);
    heard = λ x. ground (arith, h.heard, h.closed);
  }
  Step-Inv (handling l) h = record {
    ordered = h.ordered;
    leavers = h.leavers;
    closed = h.closed;
    heard = h.heard;
  }
  Step-Inv (timing_out e) h = record {
    ordered = h.ordered;
    leavers = h.leavers;
    closed = h.closed;
    heard = h.heard;
  }
  Step-Inv (dropping_receiver f e) h = record {
    ordered = h.ordered;
    leavers = h.leavers;
    closed = h.closed;
    heard = h.heard;
  }

  pub Reach-Inv : {s : System T} → Reach s → Inv s
  unfolding channel
  Reach-Inv start = record {
    ordered = refl;
    leavers = omega arith;
    closed = λ x. absurd (cc);
    heard = λ x. absurd (cc);
  }
  Reach-Inv (next r st) = Step-Inv st (Reach-Inv r)

  -- However the steps of the threads and of the receiver interleave, what was sent is what was
  -- received and behind it what is in the queue, in the order in which the messages were pushed; and
  -- the receiver is told of a hang-up only when no sender is left.
  pub sent-received :
      (s : System T)
      → Reach s
      → (s.sent ≡ s.received ++ s.channel.list) × (s.hung_up ≡ true → s.channel.senders ≡ 0)
  sent-received s r = let h = Reach-Inv r in (h.ordered, h.heard)
