-- ===== src/Client/Reconnect/Sharing.antt =====
-- How often the clones of tarantool/src/network/client/reconnect.rs connect.
use tarantool_module.Base.{
  ℕ, ◌+◌, ◌≡◌, refl, Bool, true, false, Option, none, some, arith, if◌then◌else◌,
}
use tarantool_module.Fiber.Mutex as Mutex
use tarantool_module.Fiber.Mutex.{Mutex, poll, try_lock, drop_guard, wake_one, guard, add_waker}
use tarantool_module.Client.Reconnect.{
  Slot, Asked, waiting, connecting, with_config, ask, connected, abandon, reconnect, answer,
}

-- The shared lock, whether a clone is connecting, and how often clones began to connect, emptied a
-- slot that was filled, and gave up.
pub record Clones (C : Type 0) : Type 0 where
  pub mutex : Mutex (Option (Slot C))
  pub is_connecting : Bool
  pub connects : ℕ
  pub resets : ℕ
  pub gave_up : ℕ

abbrev pub count : Bool → ℕ
count true = 1
count false = 0

module _ {C : Type 0} where
  abbrev pub is_filled : Option (Slot C) → Bool
  is_filled none = false
  is_filled (some _) = true

  abbrev pub begins : Asked C → Bool
  begins connecting = true
  begins _ = false

  abbrev pub start : Clones C
  start = record {
    mutex = with_config;
    is_connecting = false;
    connects = 0;
    resets = 0;
    gave_up = 0;
  }

  -- The slot is empty, and nobody is about to fill it.
  abbrev pub is_empty : Clones C → Bool
  is_empty s =
      if s.is_connecting then false else (if is_filled s.mutex.contents then false else true)

  abbrev pub asked : ℕ → Clones C → Clones C
  asked task s = record s {
    mutex = (ask task s.mutex).2;
    is_connecting = (if s.is_connecting then true else begins (ask task s.mutex).0);
    connects = s.connects + count (begins (ask task s.mutex).0);
  }

  abbrev pub finished : Slot C → Clones C → Clones C
  finished slot s = record s { mutex = (connected slot s.mutex).2; is_connecting = false }

  abbrev pub abandoned : Clones C → Clones C
  abandoned s = record s {
    mutex = (abandon s.mutex).1;
    is_connecting = false;
    gave_up = s.gave_up + 1;
  }

  abbrev pub cleared : Clones C → Clones C
  cleared s = record s {
    mutex = (reconnect s.mutex).1;
    resets = s.resets + (if s.mutex.locked then 0 else count (is_filled s.mutex.contents));
  }

  -- The steps of the clones between two yields, in any order
  pub data Reach : Clones C → Type 0 where
    begin : Reach start
    asking : {s : Clones C} → Reach s → (task : ℕ) → Reach (asked task s)
    finishing :
        {s : Clones C}
        → Reach s
        → s.is_connecting ≡ true
        → (slot : Slot C) → Reach (finished slot s)
    abandoning : {s : Clones C} → Reach s → s.is_connecting ≡ true → Reach (abandoned s)
    clearing : {s : Clones C} → Reach s → Reach (cleared s)

  pub record Inv (s : Clones C) : Type 0 where
    pub locked : s.mutex.locked ≡ s.is_connecting
    pub counted : s.connects + count (is_empty s) ≡ 1 + s.resets + s.gave_up
    pub unfilled : s.is_connecting ≡ true → s.mutex.contents ≡ none

  asked-Inv : (task : ℕ) (s : Clones C) → Inv s → Inv (asked task s)
  unfolding ask poll drop_guard wake_one guard add_waker
  asked-Inv task s h = record {
    locked = ground (arith, h.locked);
    counted = ground (arith, h.locked, h.counted, h.unfilled);
    unfilled = λ e. ground (arith, h.locked, h.counted, h.unfilled);
  }

  finished-Inv :
      (slot : Slot C) (s : Clones C) → Inv s → s.is_connecting ≡ true → Inv (finished slot s)
  unfolding connected drop_guard wake_one
  finished-Inv slot s h e = record {
    locked = ground arith;
    counted = ground (arith, h.counted);
    unfilled = λ x. ground arith;
  }

  abandoned-Inv : (s : Clones C) → Inv s → s.is_connecting ≡ true → Inv (abandoned s)
  unfolding abandon drop_guard wake_one
  abandoned-Inv s h e = record {
    locked = ground arith;
    counted = ground (arith, h.counted, h.unfilled e);
    unfilled = λ x. ground arith;
  }

  cleared-Inv : (s : Clones C) → Inv s → Inv (cleared s)
  unfolding reconnect try_lock drop_guard wake_one guard
  cleared-Inv s h = record {
    locked = ground (arith, h.locked);
    counted = ground (arith, h.locked, h.counted);
    unfilled = λ e. ground (arith, h.locked, h.unfilled);
  }

  Reach-Inv : {s : Clones C} → Reach s → Inv s
  unfolding with_config Mutex.new
  Reach-Inv begin = record { locked = refl; counted = refl; unfilled = λ e. refl }
  Reach-Inv (asking {s} r task) = asked-Inv task s (Reach-Inv r)
  Reach-Inv (finishing {s} r e slot) = finished-Inv slot s (Reach-Inv r) e
  Reach-Inv (abandoning {s} r e) = abandoned-Inv s (Reach-Inv r) e
  Reach-Inv (clearing {s} r) = cleared-Inv s (Reach-Inv r)

  -- The clones share what one of them made: whatever the order of their steps, a connection is begun
  -- once at the start and once more for each `reconnect` that emptied a filled slot and each
  -- connection that was given up, less one while the slot is empty and nobody is connecting. While a
  -- clone connects the others wait, and once the slot is filled they all get what is in it.
  pub ask-shared :
      (s : Clones C) (task : ℕ)
      → Reach s
      → (s.connects + count (is_empty s) ≡ 1 + s.resets + s.gave_up)
        × (s.is_connecting ≡ true → (ask task s.mutex).0 ≡ waiting)
        × ((slot : Slot C)
            → s.mutex.contents ≡ some slot
            → ((ask task s.mutex).0 ≡ answer slot) × ((ask task s.mutex).2.contents ≡ some slot))
  unfolding ask poll drop_guard wake_one guard add_waker
  ask-shared s task r =
      let h = Reach-Inv r in
      (
        h.counted,
        λ e. ground (arith, h.locked),
        λ slot e. (ground (arith, h.locked, h.unfilled), ground (arith, h.locked, h.unfilled)),
      )
