-- ===== src/Cbus/Sync/System/Dropped.antt =====
-- The receiver of tarantool/src/cbus/sync/std.rs dropped between a thread's look at the flag and its
-- entry in the list.
use mathlib.Core.Path.{subst}
use tarantool_module.Base.{
  ℕ, ◌≡◌, ◌≢◌, refl, sym, ap, ◌∙◌, true, false, Bool-cases, inl, inr, [], ◌∷◌, ◌++◌, arith, ltb,
  length, ◌==◌, ==→eq,
}
use tarantool_module.Cbus.Sync.{
  channel, push, enlist, clone_sender, release_sender, disconnect, drop_waker,
}
use tarantool_module.Cbus.Sync.System.{
  tried-gone, tried-full, tried-room, Sender, System, at, tried, outside, looking, full, parked,
  gone, Step, begin, look, try_push, wait, list_thread, park, unpark, clone, release, take,
  wake_found, check, wake_empty, stop_waiting, drop_receiver, wake_all, finish_drop, Reach, start,
  next, Leads, here, then_step,
}

module _ {ℓ} {T : Type ℓ} where
  abbrev IsLost : T → System T → Type ℓ
  IsLost m s = (s.receiver ≡ gone) × (s.senders 0 ≡ parked m 0) × (s.channel.unparked 0 ≡ false)

  -- Another thread's step leaves thread 0 where it is.
  at-IsLost :
      (m : T) (i : ℕ) (p : Sender T) (s : System T) → IsLost m s → (i ≡ 0 → ⊥) → IsLost m (at i p s)
  at-IsLost m i p s (g, q, u) n = elim (Bool-cases (i == 0)) [
    | inl t ↦ absurd (n (==→eq i 0 t))
    | inr t ↦ (g, rw t q, u)
  ]

  other :
      {m : T} {p : Sender T} (s : System T) (i : ℕ)
      → IsLost m s
      → s.senders i ≡ p
      → p ≢ parked m 0
      → i ≡ 0
      → ⊥
  other s i (g, q, u) e n z = n (sym e ∙ ap s.senders z ∙ q)

  tried-IsLost :
      (m : T) (i : ℕ) (x : T) (s : System T) → IsLost m s → (i ≡ 0 → ⊥) → IsLost m (tried i x s)
  tried-IsLost m i x s h n = elim (Bool-cases s.channel.waker) [
    | inr w ↦ subst (IsLost m) (sym (tried-gone i x s w)) (at-IsLost m i outside s h n)
    | inl w ↦ elim (Bool-cases (ltb (length s.channel.list) s.channel.cap)) [
      | inr f ↦ subst (IsLost m) (sym (tried-full i x s w f)) (at-IsLost m i (full x) s h n)
      | inl f ↦ subst (IsLost m) (sym (tried-room i x s w f)) (
          at-IsLost m i outside
            (record s {
              channel = record s.channel { list = s.channel.list ++ (x ∷ []) };
              sent = s.sent ++ (x ∷ []);
            })
            h n)
    ]
  ]

  Step-IsLost : (m : T) {s t : System T} → Step s t → IsLost m s → IsLost m t
  unfolding enlist clone_sender release_sender
  Step-IsLost m {s} (begin i x e) h = at-IsLost m i (looking x) s h (other s i h e (λ c. cc))
  Step-IsLost m {s} (look i x e) h = at-IsLost m i _ s h (other s i h e (λ c. cc))
  Step-IsLost m {s} (try_push i x e) h = tried-IsLost m i x s h (other s i h e (λ c. cc))
  Step-IsLost m {s} (wait i x e) h = at-IsLost m i _ s h (other s i h e (λ c. cc))
  Step-IsLost m {s} (list_thread i x e) h =
      at-IsLost m i _ (record s { channel = (enlist s.channel).1 }) h (other s i h e (λ c. cc))
  Step-IsLost m {s} (park i x k e) h = at-IsLost m i _ s h (other s i h e (λ c. cc))
  Step-IsLost m {s} (unpark i x k e w) h = at-IsLost m i (looking x) s h (λ z.
      let a : parked x k ≡ parked m 0 = sym e ∙ ap s.senders z ∙ h.1 in
      let b : k ≡ 0 = cc in
      let c : s.channel.unparked 0 ≡ true = ap s.channel.unparked (sym b) ∙ w in
      absurd (ground (arith, c, h.2)))
  Step-IsLost m clone h = h
  Step-IsLost m release h = h
  Step-IsLost m (take e) h = absurd (ground (arith, h, e))
  Step-IsLost m (wake_found e) h = absurd (ground (arith, h, e))
  Step-IsLost m (check e) h = absurd (ground (arith, h, e))
  Step-IsLost m (wake_empty e) h = absurd (ground (arith, h, e))
  Step-IsLost m (stop_waiting e) h = absurd (ground (arith, h, e))
  Step-IsLost m (drop_receiver e) h = absurd (ground (arith, h, e))
  Step-IsLost m (wake_all e n) h = absurd (ground (arith, h, e))
  Step-IsLost m (finish_drop e n) h = absurd (ground (arith, h, e))

  Leads-IsLost : (m : T) {s t : System T} → Leads s t → IsLost m s → IsLost m t
  Leads-IsLost m here h = h
  Leads-IsLost m (then_step l st) h = Step-IsLost m st (Leads-IsLost m l h)

  -- A thread whose message does not fit looks at the flag before it enters the list. If the receiver is
  -- dropped in between, `wakeup_all` finds nobody: the thread parks, and whatever anyone does from then
  -- on, it stays parked.
  pub dropped-parked :
      (m m' : T)
      → (s : System T) × Reach 1 s
        × (s.receiver ≡ gone)
        × ((t : System T) → Leads s t → t.senders 0 ≡ parked m' 0)
  unfolding channel push enlist disconnect drop_waker
  dropped-parked m m' = (
    _,
    next
        (next
          (next
            (next
              (next
                (next
                  (next
                    (next
                      (next (next (next start (begin 0 m refl)) (look 0 m refl))
                        (try_push 0 m refl))
                      (begin 0 m' refl))
                    (look 0 m' refl))
                  (try_push 0 m' refl))
                (wait 0 m' refl))
              (drop_receiver refl))
            (finish_drop refl refl))
          (list_thread 0 m' refl))
        (park 0 m' 0 refl),
    refl,
    λ t l. (Leads-IsLost m' l (refl, refl, refl)).1,
  )
