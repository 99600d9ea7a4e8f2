-- ===== src/Cbus/Sync/System/Parked.antt =====
-- The threads of tarantool/src/cbus/sync/std.rs that are parked, and how their wait ends.
use mathlib.Core.Path.{subst}
use tarantool_module.Base.{
  zero, length, ℕ, suc, ◌≡◌, refl, sym, ap, ◌∙◌, Bool, true, false, Bool-cases, inl, inr, List, [],
  ◌∷◌, ◌++◌, Option, none, some, if◌then◌else◌, arith, ltb, ◌==◌, ==_self,
}
use tarantool_module.Cbus.Sync.{
  wakeup_rounds, wakeup_all, Channel, set, pop, enlist, wakeup_one, clone_sender, release_sender,
  disconnect, drop_waker,
}
use tarantool_module.Cbus.Sync.System.{
  tried-gone, tried-full, tried-room, Receiver, waiting, Sender, System, at, tried, listed, parking,
  woken, outside, looking, full, enlisted, parked, round, dropping, Step, begin, look, try_push,
  wait, list_thread, park, unpark, clone, release, take, wake_found, check, wake_empty,
  stop_waiting, drop_receiver, wake_all, finish_drop, Reach, start, next,
}

abbrev pub mem : ℕ → List ℕ → Bool
mem k [] = false
mem k (x ∷ xs) = if k == x then true else mem k xs

mem_last : (k n : ℕ) (xs : List ℕ) → mem k xs ≡ true → mem k (xs ++ (n ∷ [])) ≡ true
mem_last k n [] h = absurd (cc)
mem_last k n (x ∷ xs) h = ground (arith, mem_last k n xs)

mem_new : (n : ℕ) (xs : List ℕ) → mem n (xs ++ (n ∷ [])) ≡ true
mem_new n [] = rw (==_self n) refl
mem_new n (x ∷ xs) = ground (arith, mem_new n xs)

length-zero : (xs : List ℕ) → length xs ≡ 0 → xs ≡ []
length-zero [] h = refl
length-zero (x ∷ xs) h = absurd (omega (arith, h))

module _ {ℓ} {T : Type ℓ} where
  -- Whether a `Thread` is unparked, or is in the list of those that are to be
  abbrev pub is_due : ℕ → Channel T → Bool
  is_due k c = if c.unparked k then true else mem k c.threads

  -- The `Thread` that a thread waits with
  abbrev pub waits_with : Sender T → Option ℕ
  waits_with (enlisted m k) = some k
  waits_with (parked m k) = some k
  waits_with _ = none

  abbrev IsDue : System T → Type 0
  IsDue s = (i k : ℕ) → waits_with (s.senders i) ≡ some k → is_due k s.channel ≡ true

  at-IsDue :
      (i : ℕ) (p : Sender T) (s : System T)
      → ((k : ℕ) → waits_with p ≡ some k → is_due k s.channel ≡ true)
      → IsDue s
      → IsDue (at i p s)
  at-IsDue i p s f h j k e = elim (Bool-cases (i == j)) [
    | inl t ↦ f k (rw t at e)
    | inr t ↦ h j k (rw t at e)
  ]

  wakeup_one-cons :
      (k : ℕ) (rest : List ℕ) (c : Channel T)
      → c.threads ≡ k ∷ rest
      → wakeup_one c ≡ record c { threads = rest; unparked = set k true c.unparked }
  unfolding wakeup_one
  wakeup_one-cons k rest c e = ground arith

  wakeup_one-nil : (c : Channel T) → c.threads ≡ [] → wakeup_one c ≡ c
  unfolding wakeup_one
  wakeup_one-nil c e = ground arith

  due_woken : (k : ℕ) (c : Channel T) → is_due k c ≡ true → is_due k (wakeup_one c) ≡ true
  due_woken k c h = go c.threads refl
    where
      go : (ts : List ℕ) → c.threads ≡ ts → is_due k (wakeup_one c) ≡ true
      go [] e = subst (λ d. is_due k d ≡ true) (sym (wakeup_one-nil c e)) h
      go (x ∷ xs) e =
          subst (λ d. is_due k d ≡ true) (sym (wakeup_one-cons x xs c e)) (ground (arith, h, e))

  due_listed : (k : ℕ) (c : Channel T) → is_due k c ≡ true → is_due k (enlist c).1 ≡ true
  unfolding enlist
  due_listed k c h = ground (arith, mem_last k c.made c.threads)

  made_due : (c : Channel T) → is_due c.made (enlist c).1 ≡ true
  unfolding enlist
  made_due c = ground (arith, mem_new c.made c.threads)

  woken-IsDue : (p : Receiver) (s : System T) → IsDue s → IsDue (woken p s)
  woken-IsDue p s h i k e = due_woken k s.channel (h i k e)

  pop-is_due : (k : ℕ) (c : Channel T) → is_due k (pop c).1 ≡ is_due k c
  unfolding pop
  pop-is_due k c = ground arith

  tried-IsDue : (i : ℕ) (m : T) (s : System T) → IsDue s → IsDue (tried i m s)
  tried-IsDue i m s h = elim (Bool-cases s.channel.waker) [
    | inr w ↦ subst IsDue (sym (tried-gone i m s w)) (at-IsDue i outside s (λ k q. absurd (cc)) h)
    | inl w ↦ elim (Bool-cases (ltb (length s.channel.list) s.channel.cap)) [
      | inr f ↦
          subst IsDue (sym (tried-full i m s w f)) (at-IsDue i (full m) s (λ k q. absurd (cc)) h)
      | inl f ↦ subst IsDue (sym (tried-room i m s w f)) (
          at-IsDue i outside
            (record s {
              channel = record s.channel { list = s.channel.list ++ (m ∷ []) };
              sent = s.sent ++ (m ∷ []);
            })
            (λ k q. absurd (cc)) h)
    ]
  ]

  listed-IsDue : (i : ℕ) (m : T) (s : System T) → IsDue s → IsDue (listed i m s)
  unfolding enlist
  listed-IsDue i m s h =
      at-IsDue i (enlisted m s.channel.made) (record s { channel = (enlist s.channel).1 })
        (λ k q.
          let e : s.channel.made ≡ k = cc in
          subst (λ n. is_due n (enlist s.channel).1 ≡ true) e (made_due s.channel))
        (λ j k q. due_listed k s.channel (h j k q))

  parking-IsDue :
      (i : ℕ) (m : T) (k : ℕ) (s : System T)
      → s.senders i ≡ enlisted m k
      → IsDue s
      → IsDue (parking i m k s)
  parking-IsDue i m k s e h = at-IsDue i _ s due h
    where
      due :
          (j : ℕ)
          → waits_with (if s.channel.unparked k then looking m else parked m k) ≡ some j
          → is_due j s.channel ≡ true
      due j q = elim (Bool-cases (s.channel.unparked k)) [
        | inl u ↦ absurd (ground (arith, u, q))
        | inr u ↦ h i j (ground (arith, u, q, e))
      ]

  Step-IsDue : {s t : System T} → Step s t → IsDue s → IsDue t
  unfolding clone_sender release_sender disconnect drop_waker
  Step-IsDue {s} (begin i m e) h = at-IsDue i (looking m) s (λ k q. absurd (cc)) h
  Step-IsDue {s} (look i m e) h = at-IsDue i _ s (λ k q. absurd (ground (arith, q))) h
  Step-IsDue {s} (try_push i m e) h = tried-IsDue i m s h
  Step-IsDue {s} (wait i m e) h = at-IsDue i _ s (λ k q. absurd (ground (arith, q))) h
  Step-IsDue {s} (list_thread i m e) h = listed-IsDue i m s h
  Step-IsDue {s} (park i m k e) h = parking-IsDue i m k s e h
  Step-IsDue {s} (unpark i m k e u) h = at-IsDue i (looking m) s (λ k q. absurd (cc)) h
  Step-IsDue clone h = h
  Step-IsDue release h = h
  Step-IsDue {s} (take e) h = λ i k q. pop-is_due k s.channel ∙ h i k q
  Step-IsDue {s} (wake_found e) h = woken-IsDue round s h
  Step-IsDue (check e) h = h
  Step-IsDue {s} (wake_empty e) h = woken-IsDue waiting s h
  Step-IsDue (stop_waiting e) h = h
  Step-IsDue (drop_receiver e) h = h
  Step-IsDue {s} (wake_all e n) h = woken-IsDue dropping s h
  Step-IsDue (finish_drop e n) h = h

  Reach-IsDue : (cap : ℕ) {s : System T} → Reach cap s → IsDue s
  Reach-IsDue cap start = λ i k q. absurd (cc)
  Reach-IsDue cap (next r st) = Step-IsDue st (Reach-IsDue cap r)

  wakeup_one-length :
      (n : ℕ) (c : Channel T) → length c.threads ≡ suc n → length (wakeup_one c).threads ≡ n
  unfolding wakeup_one
  wakeup_one-length n c l = go c.threads refl
    where
      go : (ts : List ℕ) → c.threads ≡ ts → length (wakeup_one c).threads ≡ n
      go [] e = absurd (omega (arith, l, ap length e))
      go (x ∷ xs) e =
          ap (λ d. length d.threads) (wakeup_one-cons x xs c e) ∙ omega (arith, l, ap length e)

  -- The rounds of `wakeup_all` empty the list, and unpark what was in it.
  rounds_done :
      (n : ℕ) (c : Channel T)
      → length c.threads ≡ n
      → ((wakeup_rounds n c).threads ≡ [])
        × ((k : ℕ) → is_due k c ≡ true → (wakeup_rounds n c).unparked k ≡ true)
  unfolding wakeup_rounds
  rounds_done zero c l =
      let e : c.threads ≡ [] = length-zero c.threads l in (e, λ k h. ground (arith, h, e))
  rounds_done (suc n) c l =
      let (empty, woken) = rounds_done n (wakeup_one c) (wakeup_one-length n c l) in
      (empty, λ k h. woken k (due_woken k c h))

  -- No parked thread is lost: in whatever order the threads and the receiver come, `wakeup_all` unparks
  -- every thread that is parked when it runs, and leaves nobody in the list.
  pub parked-woken :
      (cap : ℕ) (s : System T) (i k : ℕ) (m : T)
      → Reach cap s
      → s.senders i ≡ parked m k
      → ((wakeup_all s.channel).threads ≡ []) × ((wakeup_all s.channel).unparked k ≡ true)
  unfolding wakeup_all
  parked-woken cap s i k m r e =
      let (empty, woken) = rounds_done (length s.channel.threads) s.channel refl in
      (empty, woken k (Reach-IsDue cap r i k (rw e refl)))
