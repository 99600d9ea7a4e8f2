-- ===== src/Fiber/Mutex/Liveness.antt =====
-- Who gets the lock of tarantool/src/fiber/async/mutex.rs, and when nobody does.
use tarantool_module.Base.{
  ℕ, zero, suc, ◌+◌, ◌-◌, ◌<◌, ◌≤◌, ◌≡◌, ◌≢◌, ◌⊎◌, inl, inr, refl, sym, ap, ◌∙◌, Bool, true, false,
  List, [], ◌∷◌, ◌++◌, arith, if◌then◌else◌, length, Bool-cases,
}
use mathlib.Core.List.{append_assoc, append-nil}
use mathlib.Core.Path.{subst}
use tarantool_module.Fiber.Mutex.Tasks.{
  mem, remove, count, fresh, mem-fresh, mem-head, remove-head, count-head,
}
use tarantool_module.Fiber.Mutex.{new, add_waker, wake_one, guard, poll, try_lock, drop_guard}
use tarantool_module.Fiber.Mutex.System.{
  System, polled, polled_again, awake, unlocked, Inv, locking, trying, unlocking, cancelling,
  ignoring, resuming, repolling, Reach, start, next, Reach-Inv, woken-waiting, Owned, Reach-Owned,
}

module _ {ℓ} {T : Type ℓ} where
  -- A woken task with a pending `lock` that gets the guard at its next poll.
  abbrev pub IsNext : System T → Type 0
  IsNext s =
      (task : ℕ) × (mem task s.woken ≡ true)
      × (mem task s.waiting ≡ true)
      × ((poll task s.mutex).0 ≡ true)

  woken-IsNext :
      (task : ℕ) (rest : List ℕ) (s : System T)
      → Inv s
      → s.mutex.locked ≡ false
      → s.woken ≡ task ∷ rest
      → IsNext s
  unfolding poll guard
  woken-IsNext task rest s h e w =
      let m : mem task s.woken ≡ true = rw (w, mem-head task rest) refl in
      (task, m, woken-waiting task s h m, rw e refl)

  -- If the lock is free and a `lock` is pending, then some task was woken.
  waiting-woken : (s : System T) → Inv s → s.mutex.locked ≡ false → s.waiting ≢ [] → s.woken ≢ []
  waiting-woken s h e n w = go s.waiting refl s.mutex.wakers refl
    where
      go : (vs : List ℕ) → s.waiting ≡ vs → (ws : List ℕ) → s.mutex.wakers ≡ ws → ⊥
      go [] v ws x = n v
      go (task ∷ vs) v (_ ∷ ws) x = h.woken e (λ y. cc) w
      go (task ∷ vs) v [] x =
          let q : count task (task ∷ vs) ≡ count task [] + count task [] =
            sym (ap (count task) v)
            ∙ h.counted task
            ∙ ap (λ l. count task l + count task s.woken) x
            ∙ ap (λ l. 0 + count task l) w in
          omega (arith, q, count-head task vs)

  locked_or_IsNext : (s : System T) → Inv s → Owned s → s.waiting ≢ [] → (0 < s.guards) ⊎ IsNext s
  unfolding Owned
  locked_or_IsNext s h o waits = elim (Bool-cases s.mutex.locked) [
    | inl e ↦ inl (ground (arith, o))
    | inr e ↦ inr (first s.woken refl e (waiting-woken s h e waits))
  ]
    where
      first : (ws : List ℕ) → s.woken ≡ ws → s.mutex.locked ≡ false → s.woken ≢ [] → IsNext s
      first [] w e n = absurd (n w)
      first (task ∷ rest) w e n = woken-IsNext task rest s h e w

  -- However the calls of the tasks interleave, and be waiting `lock`s dropped or polled again, at
  -- most one guard is alive. And where no `lock` is dropped while it waits, and none is polled again
  -- before the lock wakes its task, there is no deadlock: while a `lock` waits, either a guard is
  -- alive, or a task was woken that has a waiting `lock` and gets the guard when it polls that.
  pub no_deadlock :
      (cancels repolls : Bool) (t : T) (s : System T)
      → Reach cancels repolls t s
      → (s.guards ≤ 1)
        × (cancels ≡ false → repolls ≡ false → s.waiting ≢ [] → (0 < s.guards) ⊎ IsNext s)
  unfolding Owned
  no_deadlock c d t s r =
      let o = Reach-Owned r in
      (
        ground (arith, o),
        λ e f waits.
            let q : Reach false false t s =
              subst (λ d. Reach false d t s) f (subst (λ c. Reach c d t s) e r) in
            locked_or_IsNext s (Reach-Inv q) o waits,
      )

  -- The task that was woken first polls its pending `lock`, and if it gets the guard, `more` is asked
  -- for those after it.
  pub next_owner : (System T → List ℕ) → System T → List ℕ
  next_owner more s = elim s.woken [
    | [] ↦ []
    | task ∷ rest ↦
        if mem task s.waiting
        then if (poll task s.mutex).0 then task ∷ more (polled_again task (awake task s)) else []
        else []
  ]

  -- The tasks that get the guard one after another, when each guard is dropped in turn.
  pub owners : ℕ → System T → List ℕ
  unfolding next_owner
  owners zero s = []
  owners (suc n) s = next_owner (owners n) (unlocked s)

  -- Tasks call `lock` and poll it, in this order.
  pub queued : List ℕ → System T → System T
  queued [] s = s
  queued (w ∷ ws) s = queued ws (polled w s)

  queued-Reach :
      {c d : Bool} {t : T} (ws : List ℕ) (s : System T) → Reach c d t s → Reach c d t (queued ws s)
  unfolding queued
  queued-Reach [] s r = r
  queued-Reach (w ∷ ws) s r = queued-Reach ws (polled w s) (next r (locking w))

  -- A lock that is held, with the pending `lock`s and its queue.
  abbrev held : ℕ → T → List ℕ → List ℕ → System T
  held n t vs ws = record {
    mutex = record { locked = true; wakers = ws; contents = t };
    guards = n;
    waiting = vs;
    woken = [];
  }

  queued-held :
      (n : ℕ) (t : T) (vs xs ws : List ℕ)
      → queued ws (held n t vs xs) ≡ held n t (vs ++ ws) (xs ++ ws)
  unfolding queued poll add_waker
  queued-held n t vs xs [] =
      ap (λ l. held n t l xs) (sym (append-nil vs)) ∙ ap (held n t (vs ++ [])) (sym (append-nil xs))
  queued-held n t vs xs (w ∷ ws) =
      queued-held n t (vs ++ (w ∷ [])) (xs ++ (w ∷ [])) ws
      ∙ ap (λ l. held n t l ((xs ++ (w ∷ [])) ++ ws)) (append_assoc vs (w ∷ []) ws)
      ∙ ap (held n t (vs ++ (w ∷ ws))) (append_assoc xs (w ∷ []) ws)

  -- The lock behind the drop of the guard, with the first of the queue woken
  abbrev released : ℕ → T → ℕ → List ℕ → List ℕ → System T
  released n t w vs ws = record {
    mutex = record { locked = false; wakers = ws; contents = t };
    guards = n - 1;
    waiting = vs;
    woken = w ∷ [];
  }

  next_owner-released :
      (more : System T → List ℕ) (n : ℕ) (t : T) (w : ℕ) (ws : List ℕ)
      → next_owner more (released n t w (w ∷ ws) ws) ≡ w ∷ more (held (n - 1 + 1) t ws ws)
  unfolding next_owner poll guard
  next_owner-released more n t w ws = rw (mem-head w ws, remove-head w ws, remove-head w []) refl

  owners-held : (n : ℕ) (t : T) (ws : List ℕ) → owners (length ws) (held n t ws ws) ≡ ws
  unfolding owners drop_guard wake_one
  owners-held n t [] = refl
  owners-held n t (w ∷ ws) =
      next_owner-released (owners (length ws)) n t w ws
      ∙ ap (λ l. w ∷ l) (owners-held (n - 1 + 1) t ws)

  -- The lock is fair. If tasks come to a lock that is held, with `olds` in its queue, then those of
  -- `olds` and behind them the others, in the order in which they came, get the guard, if the guards
  -- are dropped in turn and no other task is quicker. Before that nobody was woken, and the waiting
  -- `lock`s are those of the queue.
  pub owners-wakers :
      (olds ws : List ℕ) (s : System T)
      → s.mutex.locked ≡ true
      → s.mutex.wakers ≡ olds
      → s.waiting ≡ olds
      → s.woken ≡ []
      → owners (length (olds ++ ws)) (queued ws s) ≡ olds ++ ws
  owners-wakers olds ws s l e v h =
      let q : s ≡ held s.guards s.mutex.contents olds olds = rw (l, e, v, h) refl in
      ap (λ s. owners (length (olds ++ ws)) (queued ws s)) q
      ∙ ap (owners (length (olds ++ ws))) (queued-held s.guards s.mutex.contents olds olds ws)
      ∙ owners-held s.guards s.mutex.contents (olds ++ ws)

  held-Reach : {c d : Bool} (t : T) (ws : List ℕ) → Reach c d t (held 1 t ws ws)
  unfolding new try_lock guard
  held-Reach {c} {d} t ws =
      subst (Reach c d t) (queued-held 1 t [] [] ws)
        (queued-Reach ws (held 1 t [] []) (next start trying))

  -- The woken task's `lock` is dropped, and then the task ignores the wake.
  cancelled-Reach :
      (t : T) (k : ℕ) (ws : List ℕ)
      → mem k ws ≡ false
      → Reach true false t (released 1 t k (k ∷ ws) ws)
      → Reach true false t (record (released 1 t k ws ws) { woken = [] })
  cancelled-Reach t k ws f r =
      let c : Reach true false t (released 1 t k ws ws) =
        subst (λ vs. Reach true false t (released 1 t k vs ws)) (remove-head k ws)
          (next r (cancelling k refl (mem-head k ws))) in
      subst (λ vs. Reach true false t (record (released 1 t k ws ws) { woken = vs }))
        (remove-head k []) (next c (ignoring k (mem-head k []) f))

  -- Where a waiting `lock` may be dropped, its wakeup can be lost: any number of tasks can come to
  -- wait for a lock that is free, with no guard alive and nobody woken.
  pub cancelled-deadlock :
      (t : T) (ws : List ℕ)
      → (s : System T) × Reach true false t s
        × (s.guards ≡ 0)
        × (s.mutex.locked ≡ false)
        × (s.mutex.wakers ≡ ws)
        × (s.waiting ≡ ws)
        × (s.woken ≡ [])
  unfolding drop_guard wake_one
  cancelled-deadlock t ws = (
    _,
    cancelled-Reach t (fresh ws) ws (mem-fresh ws)
        (next (held-Reach t (fresh ws ∷ ws)) (unlocking (omega arith))),
    refl,
    refl,
    refl,
    refl,
    refl,
  )

  -- A task polls its pending `lock` twice, and the others come behind it.
  repolled-Reach :
      (t : T) (k : ℕ) (ws : List ℕ) → Reach false true t (held 1 t (k ∷ ws) (k ∷ k ∷ ws))
  unfolding poll add_waker
  repolled-Reach t k ws =
      let one : Reach false true t (held 1 t (k ∷ []) (k ∷ [])) = held-Reach t (k ∷ []) in
      let two : Reach false true t (held 1 t (k ∷ []) (k ∷ k ∷ [])) =
        subst (λ l. Reach false true t (held 1 t (l ++ (k ∷ [])) (k ∷ k ∷ []))) (remove-head k [])
          (next one (repolling k refl (mem-head k []))) in
      subst (Reach false true t) (queued-held 1 t (k ∷ []) (k ∷ k ∷ []) ws)
        (queued-Reach ws (held 1 t (k ∷ []) (k ∷ k ∷ [])) two)

  -- It gets the guard, and its second waker is still in the queue.
  resumed-Reach :
      (t : T) (k : ℕ) (ws : List ℕ)
      → Reach false true t (held 1 t (k ∷ ws) (k ∷ k ∷ ws))
      → Reach false true t (held 1 t ws (k ∷ ws))
  unfolding drop_guard wake_one poll guard
  resumed-Reach t k ws r =
      let woke : Reach false true t (released 1 t k (k ∷ ws) (k ∷ ws)) =
        next r (unlocking (omega arith)) in
      subst (λ l. Reach false true t (record (held 1 t ws (k ∷ ws)) { waiting = l }))
        (remove-head k ws)
        (subst
          (λ l.
            Reach false true t
              (record (held 1 t ws (k ∷ ws)) { waiting = remove k (k ∷ ws); woken = l }))
          (remove-head k []) (next woke (resuming k (mem-head k []) (mem-head k ws))))

  -- The same comes about with no `lock` dropped, where a pending one may be polled again before the
  -- lock wakes its task, as by a future that joins several others: the wake of its second waker is
  -- lost.
  repolled-deadlock :
      (t : T) (ws : List ℕ)
      → (s : System T) × Reach false true t s
        × (s.guards ≡ 0)
        × (s.mutex.locked ≡ false)
        × (s.mutex.wakers ≡ ws)
        × (s.waiting ≡ ws)
        × (s.woken ≡ [])
  unfolding drop_guard wake_one
  repolled-deadlock t ws =
      let k = fresh ws in
      let woke : Reach false true t (released 1 t k ws ws) =
        next (resumed-Reach t k ws (repolled-Reach t k ws)) (unlocking (omega arith)) in
      (
        _,
        next woke (ignoring k (mem-head k []) (mem-fresh ws)),
        refl,
        refl,
        refl,
        refl,
        remove-head k [],
      )
