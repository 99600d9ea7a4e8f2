-- ===== src/Fiber/Runtime/Laws.antt =====
-- How long `block_on` of tarantool/src/fiber/async.rs runs a future that has a deadline.
use mathlib.Core.Path.{subst}
use tarantool_module.Base.{
  ℕ, zero, suc, ◌+◌, ◌≤◌, ◌<◌, ◌≡◌, refl, some, le→leb, lt→leb_false, ◌⊎◌, inl, inr, arith, ap, ◌∙◌,
  sym,
}
use tarantool_module.Time.{duration_limit}
use tarantool_module.Time.Laws.{checked_add-below}
use tarantool_module.Fiber.Runtime.{
  timeout, Poll, pending, ready, Context, Runtime, Future, Outcome, expired, map_err, Timeout, wait,
  block_on, poll_timeout, from_waker, set_deadline,
}

pub Poll-cases : {T : Type 0} (p : Poll T) → (p ≡ pending) ⊎ ((t : T) × (p ≡ ready t))
Poll-cases pending = inl refl
Poll-cases (ready t) = inr (t, refl)

le-or-lt : (a b : ℕ) → (a ≤ b) ⊎ (b < a)
le-or-lt a b = ground arith

module _ {W F T : Type 0} (rt : Runtime W) (poll : Future W F T) (fuel : ℕ) (f : F) (w : W) where
  pub block_on-ready :
      (t : T)
      → (poll from_waker f w).0 ≡ ready t
      → block_on rt poll (suc fuel) f w ≡ some (t, (poll from_waker f w).3)
  unfolding block_on
  block_on-ready t e = rw (e, block_on) refl

  pub block_on-pending :
      (poll from_waker f w).0 ≡ pending
      → block_on rt poll (suc fuel) f w
        ≡ block_on rt poll fuel
            (poll from_waker f w).2
            (wait rt (poll from_waker f w).1 (poll from_waker f w).3)
  unfolding block_on
  block_on-pending e = rw (e, block_on) refl

module _ {W F T E : Type 0} (rt : Runtime W) (poll : Future W F (E ⊎ T)) where
  -- What a future under a deadline comes to: the answer of one of its polls, or the error behind
  -- the deadline.
  abbrev pub Ended : (F → Type 0) → ℕ → Outcome T E × W → Type 0
  Ended Polled deadline r =
      ((r.0 ≡ expired) × (deadline ≤ rt.clock r.1))
      ⊎ ((cx : Context) × (f : F) × (w : W) × (v : E ⊎ T) × Polled f
          × ((poll cx f w).0 ≡ ready v)
          × (r.0 ≡ map_err v))

  abbrev pub timed : F → ℕ → Timeout F
  timed f deadline = record { future = f; deadline = some deadline }

  module _ (deadline : ℕ) (cx : Context) (f : F) (w : W) where
    -- What the wrapped future's poll leaves
    abbrev pub left : Context × Timeout F × W
    left = let p = poll cx f w in (p.1, timed p.2 deadline, p.3)

    pub timed-ready :
        (v : E ⊎ T)
        → (poll cx f w).0 ≡ ready v
        → poll_timeout rt poll cx (timed f deadline) w ≡ (ready (map_err v), left.0, left.1, left.2)
    unfolding poll_timeout
    timed-ready v e = rw (e, poll_timeout) refl

    pub timed-expired :
        (poll cx f w).0 ≡ pending
        → deadline ≤ rt.clock (poll cx f w).3
        → poll_timeout rt poll cx (timed f deadline) w ≡ (ready expired, left.0, left.1, left.2)
    unfolding poll_timeout
    timed-expired e h = rw (e, poll_timeout, le→leb deadline (rt.clock (poll cx f w).3) h) refl

    pub timed-pending :
        (poll cx f w).0 ≡ pending
        → rt.clock (poll cx f w).3 < deadline
        → poll_timeout rt poll cx (timed f deadline) w
          ≡ (pending, set_deadline deadline (poll cx f w).1, left.1, left.2)
    unfolding poll_timeout
    timed-pending e h =
        rw (e, poll_timeout, lt→leb_false deadline (rt.clock (poll cx f w).3) h) refl

  -- A run of so many polls ends so.
  abbrev pub Ends : (F → Type 0) → ℕ → ℕ → F → W → Type 0
  Ends Polled deadline fuel f w =
      (r : Outcome T E × W) × (block_on rt (poll_timeout rt poll) fuel (timed f deadline) w
        ≡ some r)
      × Ended Polled deadline r

  module _ (Polled : F → Type 0) (fuel deadline : ℕ) (f : F) (w : W) where
    after : Poll (Outcome T E) × Context × Timeout F × W
    after = poll_timeout rt poll from_waker (timed f deadline) w

    ready-Ends :
        (v : E ⊎ T)
        → Polled f
        → (poll from_waker f w).0 ≡ ready v
        → Ends Polled deadline (suc fuel) f w
    unfolding after
    ready-Ends v k e = (
      (map_err v, after.3),
      block_on-ready rt (poll_timeout rt poll) fuel (timed f deadline) w (map_err v)
          (ap (λ q. q.0) (timed-ready deadline from_waker f w v e)),
      inr (from_waker, f, w, v, k, e, refl),
    )

    expired-Ends :
        (poll from_waker f w).0 ≡ pending
        → deadline ≤ rt.clock (poll from_waker f w).3
        → Ends Polled deadline (suc fuel) f w
    unfolding after
    expired-Ends e h =
        let q = timed-expired deadline from_waker f w e h in
        (
          (expired, after.3),
          block_on-ready rt (poll_timeout rt poll) fuel (timed f deadline) w expired
              (ap (λ q. q.0) q),
          inl (refl, subst (λ q. deadline ≤ rt.clock q.3) (sym q) h),
        )

    pending-Ends :
        (poll from_waker f w).0 ≡ pending
        → rt.clock (poll from_waker f w).3 < deadline
        → Ends Polled deadline fuel
            (poll from_waker f w).2
            (wait rt (set_deadline deadline (poll from_waker f w).1) (poll from_waker f w).3)
        → Ends Polled deadline (suc fuel) f w
    pending-Ends e h (r, b, end) =
        let q = timed-pending deadline from_waker f w e h in
        (
          r,
          block_on-pending rt (poll_timeout rt poll) fuel (timed f deadline) w (ap (λ q. q.0) q)
              ∙ ap (λ q. block_on rt (poll_timeout rt poll) fuel q.2 (wait rt q.1 q.3)) q
              ∙ b,
          end,
        )

  -- The future and the world behind so many polls, each but the last followed by a wait for the
  -- deadline at most.
  unfoldable pub left_at : ℕ → ℕ → F → W → F × W
  left_at deadline zero f w = let p = poll from_waker f w in (p.2, p.3)
  left_at deadline (suc n) f w =
      let (o, cx1, f1, w1) = poll from_waker f w in
      left_at deadline n f1 (wait rt (set_deadline deadline cx1) w1)

  -- With so many polls that the deadline has come behind the last of them, the run ends, with the
  -- error behind the deadline or with the answer of a poll of the wrapped future, whose state then
  -- has what its polls keep.
  pub block_on-Ends :
      (Polled : F → Type 0)
      → ((cx : Context) (f : F) (w : W)
          → Polled f
          → (poll cx f w).0 ≡ pending
          → Polled (poll cx f w).2)
      → (n deadline : ℕ) (f : F) (w : W) → Polled f
      → deadline ≤ rt.clock (left_at deadline n f w).1
      → Ends Polled deadline (suc n) f w
  unfolding left_at
  block_on-Ends Polled keep zero deadline f w k d = elim (Poll-cases (poll from_waker f w).0) [
    | inr (v, e) ↦ ready-Ends Polled zero deadline f w v k e
    | inl e ↦ expired-Ends Polled zero deadline f w e d
  ]
  block_on-Ends Polled keep (suc n) deadline f w k d =
      let (o, cx1, f1, w1) = poll from_waker f w in
      elim (Poll-cases (poll from_waker f w).0) [
        | inr (v, e) ↦ ready-Ends Polled (suc n) deadline f w v k e
        | inl e ↦ elim (le-or-lt deadline (rt.clock w1)) [
          | inl h ↦ expired-Ends Polled (suc n) deadline f w e h
          | inr h ↦ pending-Ends Polled (suc n) deadline f w e h (
              block_on-Ends Polled keep n deadline f1 (wait rt (set_deadline deadline cx1) w1)
                (keep from_waker f w k e) d)
        ]
      ]

  pub block_on-timeout :
      (Polled : F → Type 0)
      → ((cx : Context) (f : F) (w : W)
          → Polled f
          → (poll cx f w).0 ≡ pending
          → Polled (poll cx f w).2)
      → (n duration : ℕ) (f : F) (w : W) → Polled f
      → rt.clock w + duration < duration_limit
      → rt.clock w + duration ≤ rt.clock (left_at (rt.clock w + duration) n f w).1
      → (r : Outcome T E × W) × (block_on rt
            (poll_timeout rt poll)
            (suc n)
            (timeout rt duration f w)
            w
          ≡ some r)
        × Ended Polled (rt.clock w + duration) r
  unfolding timeout
  block_on-timeout Polled keep n duration f w k h passed =
      subst
        (λ d.
          (r : Outcome T E × W) × (block_on rt (poll_timeout rt poll) (suc n)
              (record { future = f; deadline = d }) w
            ≡ some r)
          × Ended Polled (rt.clock w + duration) r)
        (sym (checked_add-below (rt.clock w) duration h))
        (block_on-Ends Polled keep n (rt.clock w + duration) f w k passed)
