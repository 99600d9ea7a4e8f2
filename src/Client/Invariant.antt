-- ===== src/Client/Invariant.antt =====
-- What holds of the client of tarantool/src/network/client/mod.rs between two steps of its fibers.
use tarantool_module.Client.Calls.{
  Inv, maybe_wake_sender-Inv, held-Sounds, begin_send-Inv, close_with-Inv, forget-Inv,
  poll_send-IsGood,
}
use mathlib.Core.Path.{subst}
use tarantool_module.Base.{
  ℕ, ◌≡◌, ◌≢◌, ◌⊎◌, refl, ap, sym, ◌∙◌, Bool, true, false, [], Option, none, some, ◌==◌, Bool-cases,
  inl, inr, arith, length,
}
use tarantool_module.Base.Maps
use tarantool_module.Io.{Cursor, Error, Result, ok, err, panic}
use tarantool_module.Fiber.Oneshot.{Channel}
use tarantool_module.Protocol.{
  Protocol, Config, new, with_config, take_response, process_incoming, take_outgoing_data,
}
use tarantool_module.Protocol.Rmp.{Rmp}
use tarantool_module.Protocol.Api.{Request}
use tarantool_module.Protocol.Filed.{process_incoming-Filed, state-take_outgoing_data}
use tarantool_module.Client
use tarantool_module.Client.{
  Client, Notice, notify, notify_all, State, alive, closed_manually, closed_with_error,
  maybe_wake_sender, Started, subscribe, begin_send, Answer, waiting, panicked, done, failed,
  forget, response, response_error, handle_error, finish_send, resume, poll_send, close_with,
  sender_round, dispatch, received_data, receiver_round, clone_handle, drop_handle,
}
use tarantool_module.Client.Entries.{
  IsSound, absent, waits, answered, closed, Sounds, told_channel, tell-Sounds, notify_open,
}
use tarantool_module.Client.Steps.{
  Step, calling, polling, cancelling, sending, receiving, failing, cloning, dropping, Reach, start,
  next,
}

ok-injective {ℓ} : {A : Type ℓ} {a b : A} → ok a ≡ ok b → a ≡ b
ok-injective e = cc

sender_round-Inv : (c : Client) → Inv c → Inv (sender_round c).1
unfolding sender_round
sender_round-Inv c h = go c.state refl
  where
    taken :
        (asleep : Bool)
        → Inv (record c {
          protocol = (take_outgoing_data c.protocol).1;
          state = alive;
          sender_asleep = asleep;
        })
    taken asleep =
        rw ((state-take_outgoing_data c.protocol).1)
          (record { sounds = h.sounds; awake = λ _ _. refl })

    go : (s : State) → c.state ≡ s → Inv (sender_round c).1
    go alive e = elim (Bool-cases (length (take_outgoing_data c.protocol).0 == 0)) [
      | inl t ↦ simp (e, t, sender_round) (taken true)
      | inr t ↦ simp (e, t, sender_round) (taken false)
    ]
    go closed_manually e = simp (e, sender_round) h
    go (closed_with_error x) e = simp (e, sender_round) h

-- The call whose response was filed is told so, if it still waits.
dispatch-Inv :
    (s : ℕ) (c : Client)
    → Sounds c.awaiting_response c.protocol.incoming c.channels
    → Maps.get s c.protocol.incoming ≢ none
    → (d : Client) × (dispatch (some s) c ≡ ok d) × Inv d
unfolding dispatch
dispatch-Inv s c h f = go (Maps.get s c.awaiting_response) refl (Maps.get s c.channels) refl (h s)
  where
    go :
        (o : Option (Unit {0}))
        → Maps.get s c.awaiting_response ≡ o
        → (ch : Option (Channel Notice)) → Maps.get s c.channels ≡ ch
        → IsSound (Maps.get s c.awaiting_response) (Maps.get s c.protocol.incoming) ch
        → (d : Client) × (dispatch (some s) c ≡ ok d) × Inv d
    go none e ch y x = (_, rw (e, dispatch) refl, maybe_wake_sender-Inv c h)
    go (some tt) e (some _) y (waits w x) = (
      _,
      rw (e, dispatch) (rw (notify_open s none c.channels w y) refl),
      maybe_wake_sender-Inv
          (record c {
            channels = Maps.insert s (told_channel none) c.channels;
            awaiting_response = Maps.remove s c.awaiting_response;
          })
          (tell-Sounds c.awaiting_response c.protocol.incoming c.channels s h (told_channel none)
            (answered refl f)),
    )
    go (some tt) e none y (absent x) = cc
    go (some tt) e (some _) y (answered x z) = cc
    go (some tt) e (some _) y (closed z x) = cc

handle_error-cases :
    (e : Error) (c : Client)
    → (handle_error e c ≡ ok (close_with e c)) ⊎ ((e ≡ panic) × (handle_error e c ≡ err panic))
unfolding handle_error
handle_error-cases e c = ground arith

-- A round of the receiver ends without a panic, unless the protocol panics.
Ends : Result (Option ℕ) → Result Client → Type 0
Ends o r = ((d : Client) × (r ≡ ok d) × Inv d) ⊎ ((o ≡ err panic) × (r ≡ err panic))

received_data-Inv :
    (r : Result (Option ℕ) × Protocol) (c : Client)
    → ((j : ℕ) → Maps.get j c.protocol.incoming ≢ none → Maps.get j r.1.incoming ≢ none)
    → ((s : ℕ) → r.0 ≡ ok (some s) → Maps.get s r.1.incoming ≢ none)
    → Inv c
    → Ends r.0 (received_data r c)
unfolding received_data dispatch Ends
received_data-Inv (err e, p) c k f h = elim (handle_error-cases e (record c { protocol = p })) [
  | inl x ↦ inl (_, x, close_with-Inv e (record c { protocol = p }) (held-Sounds c p k h))
  | inr (x, y) ↦ inr (ap err x, y)
]
received_data-Inv (ok none, p) c k f h =
    inl (_, refl, maybe_wake_sender-Inv (record c { protocol = p }) (held-Sounds c p k h))
received_data-Inv (ok (some s), p) c k f h =
    inl (dispatch-Inv s (record c { protocol = p }) (held-Sounds c p k h) (f s refl))

receiver_round-Inv :
    (rmp : Rmp) (chunk : Cursor) (c : Client)
    → Inv c
    → Ends (process_incoming rmp chunk c.protocol).0 (receiver_round rmp chunk c)
unfolding receiver_round
receiver_round-Inv rmp chunk c h =
    let f = process_incoming-Filed rmp chunk c.protocol in
    received_data-Inv (process_incoming rmp chunk c.protocol) c f.keeps f.filed h

Step-Inv : {rmp : Rmp} {c d : Client} → Step rmp c d → Inv c → Inv d
unfolding clone_handle drop_handle Ends
Step-Inv {rmp} {c} (calling request) h = begin_send-Inv rmp request c h
Step-Inv {rmp} {c} (polling request s task) h = (poll_send-IsGood request s task c h).inv
Step-Inv {rmp} {c} (cancelling s) h = forget-Inv s c h
Step-Inv {rmp} {c} sending h = sender_round-Inv c h
Step-Inv {rmp} {c} {d} (receiving chunk e) h = elim (receiver_round-Inv rmp chunk c h) [
  | inl (x, y, z) ↦ subst Inv (ok-injective (sym y ∙ e)) z
  | inr (x, y) ↦ absurd (cc)
]
Step-Inv {rmp} {c} (failing e) h = close_with-Inv e c h.sounds
Step-Inv {rmp} {c} cloning h = record { sounds = h.sounds; awake = h.awake }
Step-Inv {rmp} {c} dropping h = elim (Bool-cases (c.clients_count == 1)) [
  | inl e ↦ simp (e, drop_handle) (record { sounds = h.sounds; awake = λ x. cc })
  | inr e ↦ simp (e, drop_handle) (record { sounds = h.sounds; awake = h.awake })
]

pub Reach-Inv : {rmp : Rmp} {config : Config} {c : Client} → Reach rmp config c → Inv c
unfolding Client.new with_config new
Reach-Inv start = record { sounds = λ j. absent refl; awake = λ _ _. refl }
Reach-Inv (next r st) = Step-Inv st (Reach-Inv r)

-- Whatever the order of the fibers' steps, the `expect`s of the client do not fail: a call that is
-- polled finds its channel open, and its response if it was told that it is there, so that it panics
-- only if the decoder of the response panics; and the receiver finds each call that it notifies, so
-- that its round ends with a client, unless `process_incoming` panics at the bytes. Calls may be
-- cancelled, responses unasked for or repeated, and the transport may fail.
pub no_panic :
    {R : Type 0} (rmp : Rmp) (config : Config) (c : Client) (request : Request R) (sync task : ℕ)
    (chunk : Cursor)
    → Reach rmp config c
    → ((poll_send request sync task c).0 ≡ panicked
        → (take_response request sync c.protocol).0 ≡ some (err panic))
      × (((d : Client) × (receiver_round rmp chunk c ≡ ok d))
          ⊎ ((process_incoming rmp chunk c.protocol).0 ≡ err panic))
unfolding Ends
no_panic rmp config c request sync task chunk r = (
  (poll_send-IsGood request sync task c (Reach-Inv r)).unbroken,
  elim (receiver_round-Inv rmp chunk c (Reach-Inv r)) [
    | inl (d, e, _) ↦ inl (d, e)
    | inr (e, _) ↦ inr e
  ],
)

-- No wakeup of the fiber that sends is lost: while the client is alive it sleeps only when there is
-- nothing to send.
pub sender_awake :
    (rmp : Rmp) (config : Config) (c : Client)
    → Reach rmp config c
    → c.state ≡ alive
    → c.protocol.outgoing ≢ []
    → c.sender_asleep ≡ false
sender_awake rmp config c r a n = elim (Bool-cases c.sender_asleep) [
  | inl e ↦ absurd (n ((Reach-Inv r).awake a e))
  | inr e ↦ e
]
