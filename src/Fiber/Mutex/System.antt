-- ===== src/Fiber/Mutex/System.antt =====
-- Tasks that share the lock of tarantool/src/fiber/async/mutex.rs, in any order of their calls.
use tarantool_module.Base.{
  ℕ, ◌+◌, ◌-◌, ◌<◌, ◌≡◌, ◌≢◌, refl, ap, Bool, true, false, List, [], ◌∷◌, ◌++◌, Option, none, some,
  arith, if◌then◌else◌,
}
use tarantool_module.Fiber.Mutex.Tasks.{
  mem, remove, count, count-append, count-remove, mem-count, count-mem,
}
use tarantool_module.Fiber.Mutex.{
  Mutex, new, add_waker, wake_one, guard, poll, try_lock, drop_guard,
}

-- The lock; the guards that are alive; the pending `lock`s, each by the task that its waker wakes;
-- and the wakes that their tasks did not answer yet.
pub record System {ℓ} (T : Type ℓ) : Type ℓ where
  pub mutex : Mutex T
  pub guards : ℕ
  pub waiting : List ℕ
  pub woken : List ℕ

append-not_nil : (xs : List ℕ) (w : ℕ) → xs ++ (w ∷ []) ≢ []
append-not_nil [] w = λ e. cc
append-not_nil (x ∷ xs) w = λ e. cc

abbrev pub to_list : Option ℕ → List ℕ
to_list none = []
to_list (some w) = w ∷ []

module _ {ℓ} {T : Type ℓ} where
  abbrev pub init : T → System T
  init t = record { mutex = new t; guards = 0; waiting = []; woken = [] }

  -- What a poll of a `lock` leaves: its task has a guard, or the `lock` is pending.
  abbrev pub answered : ℕ → System T → Bool × Mutex T → System T
  answered task s (got, m) = record s {
    mutex = m;
    guards = (if got then s.guards + 1 else s.guards);
    waiting = (if got then s.waiting else s.waiting ++ (task ∷ []));
  }

  abbrev pub polled : ℕ → System T → System T
  polled task s = answered task s (poll task s.mutex)

  -- The pending `lock` of a task is polled once more.
  abbrev pub polled_again : ℕ → System T → System T
  polled_again task s = polled task (record s { waiting = remove task s.waiting })

  -- A wake of a task is over.
  abbrev pub awake : ℕ → System T → System T
  awake task s = record s { woken = remove task s.woken }

  abbrev pub tried : System T → System T
  tried s = record s {
    mutex = (try_lock s.mutex).1;
    guards = (if (try_lock s.mutex).0 then s.guards + 1 else s.guards);
  }

  abbrev pub unlocked : System T → System T
  unlocked s = record s {
    mutex = (drop_guard s.mutex).1;
    guards = s.guards - 1;
    woken = s.woken ++ to_list (drop_guard s.mutex).0;
  }

  -- A step of some task. `lock` is polled at first, and then when its task has been woken; a task
  -- that is woken and has no pending `lock` ignores that. Where `cancels` holds, a pending `lock`
  -- may be dropped; where `repolls` holds, it may be polled though its task was not woken by the
  -- lock. In both cases its waker stays where it is.
  pub data Step (cancels repolls : Bool) (s : System T) : System T → Type ℓ where
    locking : (task : ℕ) → Step cancels repolls s (polled task s)
    resuming :
        (task : ℕ)
        → mem task s.woken ≡ true
        → mem task s.waiting ≡ true
        → Step cancels repolls s (polled_again task (awake task s))
    ignoring :
        (task : ℕ)
        → mem task s.woken ≡ true
        → mem task s.waiting ≡ false
        → Step cancels repolls s (awake task s)
    trying : Step cancels repolls s (tried s)
    unlocking : 0 < s.guards → Step cancels repolls s (unlocked s)
    cancelling :
        (task : ℕ)
        → cancels ≡ true
        → mem task s.waiting ≡ true
        → Step cancels repolls s (record s { waiting = remove task s.waiting })
    repolling :
        (task : ℕ)
        → repolls ≡ true
        → mem task s.waiting ≡ true
        → Step cancels repolls s (polled_again task s)

  pub data Reach (cancels repolls : Bool) (t : T) : System T → Type ℓ where
    start : Reach cancels repolls t (init t)
    next :
        {s u : System T}
        → Reach cancels repolls t s
        → Step cancels repolls s u
        → Reach cancels repolls t u

  -- The guard that is alive holds the lock.
  unfoldable pub Owned : System T → Type 0
  Owned s = s.guards ≡ (if s.mutex.locked then 1 else 0)

  unlocking-Owned : (s : System T) → Owned s → 0 < s.guards → Owned (unlocked s)
  unfolding Owned drop_guard wake_one
  unlocking-Owned s h g = go s.mutex.wakers refl
    where
      go : (ws : List ℕ) → s.mutex.wakers ≡ ws → Owned (unlocked s)
      go [] e = simp e (ground (arith, h))
      go (w ∷ ws) e = simp e (ground (arith, h))

  Step-Owned : {c r : Bool} {s u : System T} → Step c r s u → Owned s → Owned u
  unfolding Owned poll try_lock add_waker guard
  Step-Owned (locking task) h = ground arith
  Step-Owned (resuming task w v) h = ground arith
  Step-Owned (ignoring task w v) h = h
  Step-Owned trying h = ground arith
  Step-Owned {s = s} (unlocking g) h = unlocking-Owned s h g
  Step-Owned (cancelling task c v) h = h
  Step-Owned (repolling task c v) h = ground arith

  pub Reach-Owned : {c r : Bool} {t : T} {s : System T} → Reach c r t s → Owned s
  unfolding Owned new
  Reach-Owned start = refl
  Reach-Owned (next r st) = Step-Owned st (Reach-Owned r)

  -- Each pending `lock` has its waker in the queue, or its task was woken. And if the lock is free
  -- and has a queue, some task was woken.
  pub record Inv (s : System T) : Type ℓ where
    pub counted : (k : ℕ) → count k s.waiting ≡ count k s.mutex.wakers + count k s.woken
    pub woken : s.mutex.locked ≡ false → s.mutex.wakers ≢ [] → s.woken ≢ []

  polled-Inv :
      (task : ℕ) (s : System T)
      → ((k : ℕ) → count k s.waiting ≡ count k s.mutex.wakers + count k s.woken)
      → Inv (polled task s)
  unfolding poll add_waker guard
  polled-Inv task s c = go s.mutex.locked refl
    where
      go : (b : Bool) → s.mutex.locked ≡ b → Inv (polled task s)
      go true e = simp e (record {
        counted = λ k. omega (
          arith,
          c k,
          count-append k s.waiting (task ∷ []),
          count-append k s.mutex.wakers (task ∷ []),
        );
        woken = λ x. cc;
      })
      go false e = simp e (record { counted = c; woken = λ x. cc })

  resuming-Inv :
      (task : ℕ) (s : System T)
      → mem task s.woken ≡ true
      → mem task s.waiting ≡ true
      → Inv s
      → Inv (polled_again task (awake task s))
  resuming-Inv task s w v h =
      polled-Inv task (record s { woken = remove task s.woken; waiting = remove task s.waiting })
        (λ k.
          omega
            (arith, h.counted k, count-remove k task s.woken w, count-remove k task s.waiting v))

  tried-Inv : (s : System T) → Inv s → Inv (tried s)
  unfolding try_lock guard
  tried-Inv s h = go s.mutex.locked refl
    where
      go : (b : Bool) → s.mutex.locked ≡ b → Inv (tried s)
      go true e = simp e (record { counted = h.counted; woken = λ x. cc })
      go false e = simp e (record { counted = h.counted; woken = λ x. cc })

  unlocking-Inv : (s : System T) → Inv s → Inv (unlocked s)
  unfolding drop_guard wake_one
  unlocking-Inv s h = go s.mutex.wakers refl
    where
      go : (ws : List ℕ) → s.mutex.wakers ≡ ws → Inv (unlocked s)
      go [] e = simp e (record {
        counted = λ k. omega (arith, h.counted k, ap (count k) e, count-append k s.woken []);
        woken = λ _ n. absurd (n refl);
      })
      go (w ∷ ws) e = simp e (record {
        counted = λ k. omega (arith, h.counted k, ap (count k) e, count-append k s.woken (w ∷ []));
        woken = λ _ _. append-not_nil s.woken w;
      })

  -- A task that was woken has a pending `lock`.
  pub woken-waiting :
      (task : ℕ) (s : System T) → Inv s → mem task s.woken ≡ true → mem task s.waiting ≡ true
  woken-waiting task s h w =
      count-mem task s.waiting (omega (arith, h.counted task, mem-count task s.woken w))

  Step-Inv : {s u : System T} → Step false false s u → Inv s → Inv u
  Step-Inv {s} (locking task) h = polled-Inv task s h.counted
  Step-Inv {s} (resuming task w v) h = resuming-Inv task s w v h
  Step-Inv {s} (ignoring task w v) h = let m = woken-waiting task s h w in cc
  Step-Inv {s} trying h = tried-Inv s h
  Step-Inv {s} (unlocking g) h = unlocking-Inv s h
  Step-Inv (cancelling task c v) h = cc
  Step-Inv (repolling task c v) h = cc

  pub Reach-Inv : {t : T} {s : System T} → Reach false false t s → Inv s
  unfolding new
  Reach-Inv start = record { counted = λ k. refl; woken = λ e n. absurd (n refl) }
  Reach-Inv (next r st) = Step-Inv st (Reach-Inv r)
