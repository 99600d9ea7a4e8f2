-- ===== src/Fiber/Runtime/Sleep.antt =====
-- `sleep` of tarantool/src/fiber/async.rs, from the channel of oneshot.rs and the timeout.
use tarantool_module.Base.{
  ℕ, zero, suc, ◌+◌, ◌≤◌, ◌<◌, ◌≡◌, ◌≢◌, refl, sym, ap, ◌∙◌, Bool, true, false, Option, none, some,
  inl, inr,
}
use tarantool_module.Time.{duration_limit}
use tarantool_module.Fiber.Oneshot as Oneshot
use tarantool_module.Fiber.Oneshot.{Channel, channel}
use tarantool_module.Fiber.Runtime.{
  Poll, pending, ready, Context, Runtime, Outcome, done, failed, expired, Timeout, wait, block_on,
  from_waker, poll_timeout, timeout, poll_receiver, sleep,
}
use tarantool_module.Fiber.Runtime.Laws.{
  Poll-cases, block_on-ready, block_on-pending, left_at, block_on-timeout,
}

-- The sender lives, and nothing was sent.
abbrev Unsent : Channel (Unit {0}) → Type 0
Unsent c = (c.sender ≡ true) × (waker : Option ℕ) × (c.cell ≡ Oneshot.pending waker)

abbrev is_err : Outcome (Unit {0}) (Unit {0}) → Bool
is_err (done _) = false
is_err _ = true

abbrev errors : {W : Type 0} → Option (Outcome (Unit {0}) (Unit {0}) × W) → Option (Bool × W)
errors none = none
errors (some (o, w)) = some (is_err o, w)

ready_pending : {T : Type 0} {t : T} → ready t ≢ pending
ready_pending e = cc

module _ {W : Type 0} (rt : Runtime W) (task : ℕ) where
  receiver_waits :
      (cx : Context) (c : Channel (Unit {0})) (w : W)
      → Unsent c
      → ((poll_receiver task cx c w).0 ≡ pending) × Unsent (poll_receiver task cx c w).2
  unfolding poll_receiver Oneshot.poll
  receiver_waits cx c w (s, waker, e) = rw (s, e) (refl, (refl, _, refl))

  abbrev Wrapped : Type 0
  Wrapped = Timeout (Channel (Unit {0}))

  -- The timeout that `sleep` polls
  inner : Wrapped → W → Poll (Outcome (Unit {0}) (Unit {0})) × Context × Wrapped × W
  inner t w = poll_timeout rt (poll_receiver task) from_waker t w

  sleep-ready :
      (t : Wrapped) (w : W) (o : Outcome (Unit {0}) (Unit {0}))
      → (inner t w).0 ≡ ready o
      → (sleep rt task from_waker t w).0 ≡ ready (is_err o)
  unfolding inner sleep
  sleep-ready t w (done _) e = rw (e, sleep) refl
  sleep-ready t w (failed _) e = rw (e, sleep) refl
  sleep-ready t w expired e = rw (e, sleep) refl

  sleep-pending :
      (t : Wrapped) (w : W) → (inner t w).0 ≡ pending → (sleep rt task from_waker t w).0 ≡ pending
  unfolding inner sleep
  sleep-pending t w e = rw (e, sleep) refl

  sleep-eq-is_err :
      (fuel : ℕ) (t : Timeout (Channel (Unit {0}))) (w : W) (r : Outcome (Unit {0}) (Unit {0}) × W)
      → block_on rt (poll_timeout rt (poll_receiver task)) fuel t w ≡ some r
      → block_on rt (sleep rt task) fuel t w ≡ some (is_err r.0, r.1)
  unfolding inner sleep block_on
  sleep-eq-is_err zero t w r e = absurd (cc)
  sleep-eq-is_err (suc fuel) t w r e = elim (Poll-cases (inner t w).0) [
    | inr (o, h) ↦
        let same : some (o, (inner t w).3) ≡ some r =
          sym (block_on-ready rt (poll_timeout rt (poll_receiver task)) fuel t w o h) ∙ e in
        block_on-ready rt (sleep rt task) fuel t w (is_err o) (sleep-ready t w o h) ∙ ap errors same
    | inl h ↦
        block_on-pending rt (sleep rt task) fuel t w (sleep-pending t w h)
        ∙ sleep-eq-is_err fuel (inner t w).2 (wait rt (inner t w).1 (inner t w).3) r
            (sym (block_on-pending rt (poll_timeout rt (poll_receiver task)) fuel t w h) ∙ e)
  ]

  -- `sleep` does not end before its time has passed, however often its waits end early, and ends by
  -- the poll behind which it has passed; its `unwrap_err` finds the error that it expects.
  block_on-sleep :
      (n time : ℕ) (w : W)
      → rt.clock w + time < duration_limit
      → rt.clock w + time
        ≤ rt.clock
            (left_at {T = Unit {0}} {E = Unit {0}} rt
              (poll_receiver task)
              (rt.clock w + time)
              n
              channel
              w).1
      → (w' : W) × (block_on rt (sleep rt task) (suc n) (timeout rt time channel w) w
          ≡ some (true, w'))
        × (rt.clock w + time ≤ rt.clock w')
  unfolding channel
  block_on-sleep n time w h passed =
      let (r, e, end) =
        block_on-timeout rt (poll_receiver task) Unsent (λ cx c v k _. (receiver_waits cx c v k).1)
          n time channel w (refl, none, refl) h passed in
      let s = sleep-eq-is_err (suc n) (timeout rt time channel w) w r e in
      elim end [
        | inl (x, d) ↦ (r.1, s ∙ ap (λ o. some (is_err o, r.1)) x, d)
        | inr (cx, c, v, a, k, x, _) ↦ absurd (ready_pending (sym x ∙ (receiver_waits cx c v k).0))
      ]
