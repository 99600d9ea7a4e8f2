-- ===== src/Client/Entries.antt =====
-- The calls in flight of tarantool/src/network/client/mod.rs, one sync at a time.
use mathlib.Core.Path.{subst}
use tarantool_module.Base.{
  ℕ, ◌≡◌, ◌≢◌, refl, sym, true, false, List, [], ◌∷◌, Option, none, some, ◌==◌, Bool-cases, inl,
  inr, arith, ==→eq,
}
use tarantool_module.Base.Maps
use tarantool_module.Io.{Error}
use tarantool_module.Fiber.Watch.{any_wakes}
use tarantool_module.Fiber.Oneshot as Oneshot
use tarantool_module.Fiber.Oneshot.{Channel, Poll, received}
use tarantool_module.Protocol.{Response}
use tarantool_module.Client.{Notice, notify, notify_all, ignore_error}

-- A channel whose call waits, and one that holds what the call is told.
abbrev pub open_channel : Option ℕ → Channel Notice
open_channel w = record { cell = Oneshot.pending w; sender = true; receiver = true }

abbrev pub told_channel : Notice → Channel Notice
told_channel n = record { cell = Oneshot.ready n; sender = false; receiver = true }

-- How one sync stands in the map of senders, among the responses and among the channels: no call,
-- a call that waits and has its sender in the map, or a call that was told that its response is
-- there, which it is, or that the connection was closed.
pub data IsSound (entry : Option (Unit {0})) (held : Option Response)
    : Option (Channel Notice) → Type 0 where
  absent : entry ≡ none → IsSound entry held none
  waits : (w : Option ℕ) → entry ≡ some tt → IsSound entry held (some (open_channel w))
  answered : entry ≡ none → held ≢ none → IsSound entry held (some (told_channel none))
  closed : (e : Error) → entry ≡ none → IsSound entry held (some (told_channel (some e)))

abbrev pub Sounds : List (ℕ × Unit {0}) → List (ℕ × Response) → List (ℕ × Channel Notice) → Type 0
Sounds entries held channels =
    (j : ℕ) → IsSound (Maps.get j entries) (Maps.get j held) (Maps.get j channels)

pub IsSound-held :
    {entry : Option (Unit {0})} {held held' : Option Response} {ch : Option (Channel Notice)}
    → (held ≢ none → held' ≢ none)
    → IsSound entry held ch
    → IsSound entry held' ch
IsSound-held f (absent e) = absent e
IsSound-held f (waits w e) = waits w e
IsSound-held f (answered e h) = answered e (f h)
IsSound-held f (closed x e) = closed x e

module _ (entries : List (ℕ × Unit {0})) (held : List (ℕ × Response))
    (channels : List (ℕ × Channel Notice)) (s : ℕ) (h : Sounds entries held channels) where
  -- A new call.
  pub insert-Sounds :
      (ch : Channel Notice)
      → IsSound (some tt) (Maps.get s held) (some ch)
      → Sounds (Maps.insert s tt entries) held (Maps.insert s ch channels)
  insert-Sounds ch x j = elim (Bool-cases (s == j)) [
    | inl e ↦
        rw (Maps.get-insert s j tt entries, Maps.get-insert s j ch channels, e)
          (rw (==→eq s j e) at x)
    | inr e ↦ rw (Maps.get-insert s j tt entries, Maps.get-insert s j ch channels, e) (h j)
  ]

  -- A call whose channel changes.
  pub set-Sounds :
      (ch : Channel Notice)
      → IsSound (Maps.get s entries) (Maps.get s held) (some ch)
      → Sounds entries held (Maps.insert s ch channels)
  set-Sounds ch x j = elim (Bool-cases (s == j)) [
    | inl e ↦ rw (Maps.get-insert s j ch channels, e) (rw (==→eq s j e) at x)
    | inr e ↦ rw (Maps.get-insert s j ch channels, e) (h j)
  ]

  -- A call that is told something, its sender taken out of the map.
  pub tell-Sounds :
      (ch : Channel Notice)
      → IsSound none (Maps.get s held) (some ch)
      → Sounds (Maps.remove s entries) held (Maps.insert s ch channels)
  tell-Sounds ch x j = elim (Bool-cases (s == j)) [
    | inl e ↦
        rw (Maps.get-remove s j entries, Maps.get-insert s j ch channels, e) (rw (==→eq s j e) at x)
    | inr e ↦ rw (Maps.get-remove s j entries, Maps.get-insert s j ch channels, e) (h j)
  ]

  -- A call that is gone; its response may go with it.
  pub remove-Sounds : Sounds (Maps.remove s entries) held (Maps.remove s channels)
  remove-Sounds j = elim (Bool-cases (s == j)) [
    | inl e ↦ rw (Maps.get-remove s j entries, Maps.get-remove s j channels, e) (absent refl)
    | inr e ↦ rw (Maps.get-remove s j entries, Maps.get-remove s j channels, e) (h j)
  ]

  pub remove_all-Sounds :
      Sounds (Maps.remove s entries) (Maps.remove s held) (Maps.remove s channels)
  remove_all-Sounds j = elim (Bool-cases (s == j)) [
    | inl e ↦ rw (Maps.get-remove s j entries, Maps.get-remove s j channels, e) (absent refl)
    | inr e ↦
        rw (Maps.get-remove s j entries, Maps.get-remove s j channels, Maps.get-remove s j held, e)
          (h j)
  ]

-- What a notice leaves at a call that waits, and at one that was told something before.
module _ (s : ℕ) (notice : Notice) (channels : List (ℕ × Channel Notice)) where
  abbrev Notified : Type 0
  Notified = notify s notice channels ≡ some (Maps.insert s (told_channel notice) channels)

  pub notify_open : (w : Option ℕ) → Maps.get s channels ≡ some (open_channel w) → Notified
  unfolding notify Oneshot.send Oneshot.put Oneshot.drop_sender
  notify_open w e = rw (e, notify) refl

  notify_told : (n : Notice) → Maps.get s channels ≡ some (told_channel n) → Notified
  unfolding notify Oneshot.send Oneshot.put Oneshot.drop_sender
  notify_told n e = rw (e, notify) refl

notify-none :
    (s : ℕ) (notice : Notice) (channels : List (ℕ × Channel Notice))
    → Maps.get s channels ≡ none
    → notify s notice channels ≡ none
unfolding notify
notify-none s notice channels e = rw (e, notify) refl

-- The loop that tells all calls: those whose senders it has still to come to may wait.
pub data IsTold (left : List ℕ) (held : Option Response) (j : ℕ)
    : Option (Channel Notice) → Type 0 where
  gone : IsTold left held j none
  waits : (w : Option ℕ) → any_wakes j left ≡ true → IsTold left held j (some (open_channel w))
  answered : held ≢ none → IsTold left held j (some (told_channel none))
  closed : (e : Error) → IsTold left held j (some (told_channel (some e)))

-- The channels after a notice that may be refused.
abbrev notified : ℕ → Notice → List (ℕ × Channel Notice) → List (ℕ × Channel Notice)
notified s notice channels = ignore_error channels (notify s notice channels)

IsTold-left :
    {held : Option Response} {ch : Option (Channel Notice)} (left : List ℕ) (s j : ℕ)
    → (s == j) ≡ false
    → IsTold (s ∷ left) held j ch
    → IsTold left held j ch
IsTold-left left s j e gone = gone
IsTold-left left s j e (waits w t) = waits w (rw e at t)
IsTold-left left s j e (answered h) = answered h
IsTold-left left s j e (closed x) = closed x

abbrev Tolds : List ℕ → List (ℕ × Response) → List (ℕ × Channel Notice) → Type 0
Tolds left held channels = (j : ℕ) → IsTold left (Maps.get j held) j (Maps.get j channels)

told-Tolds :
    (s : ℕ) (left : List ℕ) (e : Error) (held : List (ℕ × Response))
    (channels : List (ℕ × Channel Notice))
    → Tolds (s ∷ left) held channels
    → Tolds left held (Maps.insert s (told_channel (some e)) channels)
told-Tolds s left e held channels h j = elim (Bool-cases (s == j)) [
  | inl t ↦ rw (Maps.get-insert s j (told_channel (some e)) channels, t) (closed e)
  | inr t ↦
      rw (Maps.get-insert s j (told_channel (some e)) channels, t) (IsTold-left left s j t (h j))
]

-- A call that is not there has nothing to wait for.
gone-Tolds :
    (s : ℕ) (left : List ℕ) (held : List (ℕ × Response)) (channels : List (ℕ × Channel Notice))
    → Maps.get s channels ≡ none
    → Tolds (s ∷ left) held channels
    → Tolds left held channels
gone-Tolds s left held channels n h j = elim (Bool-cases (s == j)) [
  | inl t ↦ rw (← ==→eq s j t, n) gone
  | inr t ↦ IsTold-left left s j t (h j)
]

notified-Tolds :
    (s : ℕ) (left : List ℕ) (e : Error) (held : List (ℕ × Response))
    (channels : List (ℕ × Channel Notice))
    → Tolds (s ∷ left) held channels
    → Tolds left held (notified s (some e) channels)
unfolding notify
notified-Tolds s left e held channels h = go (Maps.get s channels) refl (h s)
  where
    told :
        notify s (some e) channels ≡ some (Maps.insert s (told_channel (some e)) channels)
        → Tolds left held (notified s (some e) channels)
    told x =
        subst (λ o. Tolds left held (ignore_error channels o)) (sym x)
          (told-Tolds s left e held channels h)

    go :
        (o : Option (Channel Notice))
        → Maps.get s channels ≡ o
        → IsTold (s ∷ left) (Maps.get s held) s o
        → Tolds left held (notified s (some e) channels)
    go none x gone =
        subst (λ o. Tolds left held (ignore_error channels o))
          (sym (notify-none s (some e) channels x)) (gone-Tolds s left held channels x h)
    go (some _) x (waits w t) = told (notify_open s (some e) channels w x)
    go (some _) x (answered t) = told (notify_told s (some e) channels none x)
    go (some _) x (closed y) = told (notify_told s (some e) channels (some y) x)

notify_all-Tolds :
    (left : List ℕ) (e : Error) (held : List (ℕ × Response)) (channels : List (ℕ × Channel Notice))
    → Tolds left held channels
    → Tolds [] held (notify_all left (some e) channels)
unfolding notify_all
notify_all-Tolds [] e held channels h = h
notify_all-Tolds (s ∷ left) e held channels h =
    notify_all-Tolds left e held (notified s (some e) channels)
      (notified-Tolds s left e held channels h)

any_wakes-keys :
    (entries : List (ℕ × Unit {0})) (j : ℕ)
    → Maps.get j entries ≡ some tt
    → any_wakes j (Maps.keys entries) ≡ true
any_wakes-keys [] j h = cc
any_wakes-keys ((k, tt) ∷ entries) j h = ground (arith, any_wakes-keys entries j)

-- When the connection is closed, every call that waits is told, and none loses its response.
pub notify_all-Sounds :
    (entries : List (ℕ × Unit {0})) (e : Error) (held : List (ℕ × Response))
    (channels : List (ℕ × Channel Notice))
    → Sounds entries held channels
    → Sounds [] held (notify_all (Maps.keys entries) (some e) channels)
notify_all-Sounds entries e held channels h =
    λ j. finish (notify_all-Tolds (Maps.keys entries) e held channels (λ i. begin i (h i)) j)
  where
    begin :
        (j : ℕ) {ch : Option (Channel Notice)}
        → IsSound (Maps.get j entries) (Maps.get j held) ch
        → IsTold (Maps.keys entries) (Maps.get j held) j ch
    begin j (absent x) = gone
    begin j (waits w x) = waits w (any_wakes-keys entries j x)
    begin j (answered x y) = answered y
    begin j (closed x y) = closed x

    finish :
        {j : ℕ} {o : Option Response} {ch : Option (Channel Notice)}
        → IsTold [] o j ch
        → IsSound none o ch
    finish gone = absent refl
    finish (waits w x) = cc
    finish (answered x) = answered refl x
    finish (closed x) = closed x refl
