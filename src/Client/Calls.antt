-- ===== src/Client/Calls.antt =====
-- The calls of tarantool/src/network/client/mod.rs, and what holds of the client between two steps.
use mathlib.Core.Path.{subst}
use tarantool_module.Base.{
  ℕ, ◌≡◌, ◌≢◌, refl, ap, sym, ◌∙◌, true, [], ◌∷◌, Option, none, some, ◌==◌, Bool-cases, inl, inr,
  arith, length,
}
use tarantool_module.Base.Maps
use tarantool_module.Io.{Error, Result, ok, err, panic, Bytes}
use tarantool_module.Fiber.Oneshot as Oneshot
use tarantool_module.Fiber.Oneshot.{Channel, Poll, received}
use tarantool_module.Protocol.{Protocol, send_request, take_response}
use tarantool_module.Protocol.Rmp.{Rmp}
use tarantool_module.Protocol.Api.{Request}
use tarantool_module.Protocol.Filed.{
  incoming-send_request, outgoing-send_request, state-take_response, take_response-held,
}
use tarantool_module.Client.{
  Client, Notice, State, alive, closed_manually, closed_with_error, maybe_wake_sender, subscribe,
  begin_send, Answer, panicked, forget, response, response_error, finish_send, resume, poll_send,
  close_with,
}
use tarantool_module.Client.Entries.{
  IsSound, absent, waits, answered, closed, Sounds, IsSound-held, open_channel, insert-Sounds,
  set-Sounds, remove-Sounds, remove_all-Sounds, notify_all-Sounds,
}

-- Every call in flight is sound, and while the client is alive the fiber that sends sleeps only if
-- there is nothing to send.
pub record Inv (c : Client) : Type 0 where
  pub sounds : Sounds c.awaiting_response c.protocol.incoming c.channels
  pub awake : c.state ≡ alive → c.sender_asleep ≡ true → c.protocol.outgoing ≡ []

no_bytes : (bs : Bytes) → (length bs == 0) ≡ true → bs ≡ []
no_bytes [] h = refl
no_bytes (b ∷ bs) h = ground arith

pub maybe_wake_sender-Inv :
    (c : Client)
    → Sounds c.awaiting_response c.protocol.incoming c.channels
    → Inv (maybe_wake_sender c)
unfolding maybe_wake_sender
maybe_wake_sender-Inv c h = elim (Bool-cases (length c.protocol.outgoing == 0)) [
  | inl e ↦
      rw (e, maybe_wake_sender)
        (record { sounds = h; awake = λ _ _. no_bytes c.protocol.outgoing e })
  | inr e ↦ rw (e, maybe_wake_sender) (record { sounds = h; awake = λ _ x. cc })
]

-- The protocol may lose no response that it holds.
pub held-Sounds :
    (c : Client) (p : Protocol)
    → ((j : ℕ) → Maps.get j c.protocol.incoming ≢ none → Maps.get j p.incoming ≢ none)
    → Inv c
    → Sounds c.awaiting_response p.incoming c.channels
held-Sounds c p k h = λ j. IsSound-held (k j) (h.sounds j)

subscribe-Inv :
    (r : Result ℕ × Protocol) (c : Client)
    → r.1.incoming ≡ c.protocol.incoming
    → ((e : Error) → r.0 ≡ err e → r.1.outgoing ≡ c.protocol.outgoing)
    → Inv c
    → Inv (subscribe r c).1
unfolding subscribe Oneshot.channel
subscribe-Inv (err e, p) c k o h = record {
  sounds = held-Sounds c p (λ j x. rw k x) h;
  awake = λ s a. o e refl ∙ h.awake s a;
}
subscribe-Inv (ok sync, p) c k o h =
    maybe_wake_sender-Inv
      (record c {
        protocol = p;
        channels = Maps.insert sync (open_channel none) c.channels;
        awaiting_response = Maps.insert sync tt c.awaiting_response;
      })
      (insert-Sounds c.awaiting_response p.incoming c.channels sync
        (held-Sounds c p (λ j x. rw k x) h) (open_channel none) (waits none refl))

pub begin_send-Inv :
    {R : Type 0} (rmp : Rmp) (request : Request R) (c : Client)
    → Inv c
    → Inv (begin_send rmp request c).1
unfolding begin_send
begin_send-Inv rmp request c h = go c.state refl
  where
    go : (s : State) → c.state ≡ s → Inv (begin_send rmp request c).1
    go alive e =
        simp (e, begin_send)
          (subscribe-Inv (send_request rmp request c.protocol) c
            (incoming-send_request rmp request c.protocol)
            (outgoing-send_request rmp request c.protocol) h)
    go closed_manually e = simp (e, begin_send) h
    go (closed_with_error x) e = simp (e, begin_send) h

pub close_with-Inv :
    (e : Error) (c : Client)
    → Sounds c.awaiting_response c.protocol.incoming c.channels
    → Inv (close_with e c)
unfolding close_with
close_with-Inv e c h = record {
  sounds = notify_all-Sounds c.awaiting_response e c.protocol.incoming c.channels h;
  awake = λ s a. cc;
}

-- A poll keeps the invariant, and panics only if what it takes from the protocol is a panic.
pub record IsGood {R : Type 0} (o : Option (Result R)) (r : Answer R × Client) : Type 0 where
  pub inv : Inv r.1
  pub unbroken : r.0 ≡ panicked → o ≡ some (err panic)

pub forget-Inv : (s : ℕ) (c : Client) → Inv c → Inv (forget s c)
unfolding forget
forget-Inv s c h = record {
  sounds = remove-Sounds c.awaiting_response c.protocol.incoming c.channels s h.sounds;
  awake = h.awake;
}

response_error-panicked : {R : Type 0} (e : Error) → response_error {R = R} e ≡ panicked → e ≡ panic
unfolding response_error
response_error-panicked e h = ground arith

response-held :
    {R : Type 0} (o : Option (Result R)) → o ≢ none → response o ≡ panicked → o ≡ some (err panic)
unfolding response
response-held none h p = absurd (h refl)
response-held (some (ok r)) h p = cc
response-held (some (err e)) h p = ap (λ e. some (err e)) (response_error-panicked e p)

finish_send-IsGood :
    {R : Type 0} (request : Request R) (s : ℕ) (n : Notice) (c : Client)
    → (n ≡ none → Maps.get s c.protocol.incoming ≢ none)
    → Inv c
    → IsGood (take_response request s c.protocol).0 (finish_send request s n c)
unfolding finish_send
finish_send-IsGood request s (some e) c k h = record { inv = forget-Inv s c h; unbroken = λ e. cc }
finish_send-IsGood request s none c k h = record {
  inv =
      subst (λ p. Inv (record (forget s c) { protocol = p }))
        (sym (state-take_response request s c.protocol)) (taken s c h);
  unbroken =
      response-held (take_response request s c.protocol).0
        (take_response-held request s c.protocol (k refl));
}
  where
    taken :
        (s : ℕ) (c : Client)
        → Inv c
        → Inv (record (forget s c) {
          protocol = record c.protocol { incoming = Maps.remove s c.protocol.incoming };
        })
    taken s c h =
        unfold forget in
        record {
          sounds = remove_all-Sounds c.awaiting_response c.protocol.incoming c.channels s h.sounds;
          awake = h.awake;
        }

pub poll_send-IsGood :
    {R : Type 0} (request : Request R) (s task : ℕ) (c : Client)
    → Inv c
    → IsGood (take_response request s c.protocol).0 (poll_send request s task c)
unfolding poll_send resume Oneshot.poll
poll_send-IsGood {R} request s task c h = go (Maps.get s c.channels) refl (h.sounds s)
  where
    go :
        (o : Option (Channel Notice))
        → Maps.get s c.channels ≡ o
        → IsSound (Maps.get s c.awaiting_response) (Maps.get s c.protocol.incoming) o
        → IsGood (take_response request s c.protocol).0 (poll_send request s task c)
    go none e (absent x) = rw (e, poll_send) (record { inv = h; unbroken = λ e. cc })
    go (some _) e (waits w x) =
        rw (e, poll_send)
          (record {
            inv = record {
              sounds =
                  set-Sounds c.awaiting_response c.protocol.incoming c.channels s h.sounds
                    (open_channel (some (Oneshot.get_or_insert w task))) (waits _ x);
              awake = h.awake;
            };
            unbroken = λ e. cc;
          })
    go (some _) e (answered x y) =
        rw (e, poll_send) (finish_send-IsGood request s none c (λ _. y) h)
    go (some _) e (closed n x) =
        rw (e, poll_send) (finish_send-IsGood request s (some n) c (λ e. cc) h)
