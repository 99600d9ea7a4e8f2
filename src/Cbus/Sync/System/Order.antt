-- ===== src/Cbus/Sync/System/Order.antt =====
-- What the receiver of tarantool/src/cbus/sync/std.rs gets, and how much the queue holds.
use mathlib.Core.List.{append_assoc, append-nil}
use tarantool_module.Base.{
  ℕ, ◌≤◌, ◌≡◌, refl, sym, ap, ◌∙◌, Bool-cases, inl, inr, List, [], ◌∷◌, ◌++◌, arith, length,
  length-append, ltb, ltb→lt,
}
use tarantool_module.Cbus.Sync.{
  Channel, channel, push, pop, enlist, wakeup_one, clone_sender, release_sender, disconnect,
  drop_waker,
}
use tarantool_module.Cbus.Sync.System.{
  Receiver, waiting, dropping, System, tried, popped, woken, round, Step, begin, look, try_push,
  wait, list_thread, park, unpark, clone, release, take, wake_found, check, wake_empty,
  stop_waiting, drop_receiver, wake_all, finish_drop, Reach, start, next,
}

module _ {ℓ} {T : Type ℓ} where
  abbrev IsGood : ℕ → System T → Type ℓ
  IsGood cap s =
      (s.sent ≡ s.received ++ s.channel.list)
      × (length s.channel.list ≤ s.channel.cap)
      × (s.channel.cap ≡ cap)

  pushed-IsGood : (cap i : ℕ) (m : T) (s : System T) → IsGood cap s → IsGood cap (tried i m s)
  unfolding push
  pushed-IsGood cap i m s (o, b, c) = elim (Bool-cases s.channel.waker) [
    | inr w ↦ ground (arith, o, b, c)
    | inl w ↦ elim (Bool-cases (ltb (length s.channel.list) s.channel.cap)) [
      | inr f ↦ ground (arith, o, b, c)
      | inl f ↦
          let e : s.sent ++ (m ∷ []) ≡ s.received ++ (s.channel.list ++ (m ∷ [])) =
            ap (λ l. l ++ (m ∷ [])) o ∙ append_assoc s.received s.channel.list (m ∷ []) in
          let l : length (s.channel.list ++ (m ∷ [])) ≤ s.channel.cap =
            omega (arith, length-append s.channel.list (m ∷ []), ltb→lt _ _ f) in
          ground (arith, e, l, c)
    ]
  ]

  wakeup_one-list : (c : Channel T) → ((wakeup_one c).list ≡ c.list) × ((wakeup_one c).cap ≡ c.cap)
  unfolding wakeup_one
  wakeup_one-list c = ground arith

  woken-IsGood : (cap : ℕ) (p : Receiver) (s : System T) → IsGood cap s → IsGood cap (woken p s)
  woken-IsGood cap p s (o, b, c) =
      let (l, k) = wakeup_one-list s.channel in (rw l o, rw (l, k) b, rw k c)

  popped-IsGood : (cap : ℕ) (s : System T) → IsGood cap s → IsGood cap (popped s)
  unfolding pop
  popped-IsGood cap s (o, b, c) = go s.channel.list refl
    where
      go : (l : List T) → s.channel.list ≡ l → IsGood cap (popped s)
      go [] x = rw x (o ∙ rw x (sym (append-nil _)), omega arith, c)
      go (m ∷ l) x = rw x (
        o ∙ ap (λ r. s.received ++ r) x ∙ sym (append_assoc s.received (m ∷ []) l),
        omega (arith, b, ap length x),
        c,
      )

  Step-IsGood : (cap : ℕ) {s t : System T} → Step s t → IsGood cap s → IsGood cap t
  unfolding enlist clone_sender release_sender disconnect drop_waker
  Step-IsGood cap (begin i m e) h = h
  Step-IsGood cap (look i m e) h = h
  Step-IsGood cap {s} (try_push i m e) h = pushed-IsGood cap i m s h
  Step-IsGood cap (wait i m e) h = h
  Step-IsGood cap (list_thread i m e) h = h
  Step-IsGood cap (park i m k e) h = h
  Step-IsGood cap (unpark i m k e u) h = h
  Step-IsGood cap clone h = h
  Step-IsGood cap release h = h
  Step-IsGood cap {s} (take e) h = popped-IsGood cap s h
  Step-IsGood cap {s} (wake_found e) h = woken-IsGood cap round s h
  Step-IsGood cap (check e) h = h
  Step-IsGood cap {s} (wake_empty e) h = woken-IsGood cap waiting s h
  Step-IsGood cap (stop_waiting e) h = h
  Step-IsGood cap (drop_receiver e) h = h
  Step-IsGood cap {s} (wake_all e n) h = woken-IsGood cap dropping s h
  Step-IsGood cap (finish_drop e n) h = h

  -- However the steps of the threads and of the receiver interleave, the queue never holds more than
  -- `cap` messages, and what was sent is what was received and behind it what is in the queue, in the
  -- order in which the messages were pushed.
  pub sent-bounded :
      (cap : ℕ) (s : System T)
      → Reach cap s
      → (length s.channel.list ≤ cap) × (s.sent ≡ s.received ++ s.channel.list)
  unfolding channel
  sent-bounded cap s r = let (o, b, c) = reached r in (rw (← c) b, o)
    where
      reached : {s : System T} → Reach cap s → IsGood cap s
      reached start = (refl, omega arith, refl)
      reached (next r st) = Step-IsGood cap st (reached r)
