-- ===== src/Client/Delivery.antt =====
-- From the bytes of a response to the call that waits for it, through the handler and the channels
-- of tarantool/src/network/client/mod.rs.
use tarantool_module.Base.{
  ℕ, ◌^◌, ◌<◌, ◌≡◌, refl, ap, ◌∙◌, [], ◌∷◌, ◌++◌, Option, none, some, Bool-cases, inl, inr, ◌==◌,
  length, false, arith,
}
use tarantool_module.Base.Maps
use tarantool_module.Io.{Bytes, Cursor, rest, ok, at_start}
use tarantool_module.Fiber.Oneshot as Oneshot
use tarantool_module.Fiber.Oneshot.{Channel}
use tarantool_module.Protocol.{Config, ready, body, process_pending_data, take_response}
use tarantool_module.Protocol.Rmp.{Rmp}
use tarantool_module.Protocol.Api.{Request}
use tarantool_module.Protocol.Header.Laws.{packet, type, sync, version}
use tarantool_module.Protocol.Incoming.{process_incoming-response, stored}
use tarantool_module.Protocol.Filed.{take_response-body, stored-process_pending_data}
use tarantool_module.Client.{
  Client, Notice, forget, response, poll_send, resume, finish_send, maybe_wake_sender, dispatch,
  received_data, receiver_round,
}
use tarantool_module.Client.Entries.{
  IsSound, absent, waits, answered, closed, open_channel, told_channel, notify_open,
}
use tarantool_module.Client.Steps.{Reach}
use tarantool_module.Client.Calls.{Inv}
use tarantool_module.Client.Invariant.{Reach-Inv}

poll_send-told :
    {R : Type 0} (request : Request R) (s task : ℕ) (c : Client)
    → Maps.get s c.channels ≡ some (told_channel none)
    → (poll_send request s task c).0 ≡ response (take_response request s c.protocol).0
unfolding poll_send resume finish_send Oneshot.poll
poll_send-told request s task c e = rw (e, poll_send) refl

-- A wakeup of the sender changes nothing for the calls.
poll_send-maybe_wake_sender :
    {R : Type 0} (request : Request R) (s task : ℕ) (c : Client)
    → Maps.get s c.channels ≡ some (told_channel none)
    → (poll_send request s task (maybe_wake_sender c)).0
      ≡ response (take_response request s c.protocol).0
unfolding maybe_wake_sender
poll_send-maybe_wake_sender request s task c e =
    elim (Bool-cases (length c.protocol.outgoing == 0)) [
      | inl t ↦ rw (t, maybe_wake_sender) (poll_send-told request s task c e)
      | inr t ↦
          rw (t, maybe_wake_sender)
            (poll_send-told request s task (record c { sender_asleep = false }) e)
    ]

abbrev Waiting : Client → ℕ → Type 0
Waiting c s = (w : Option ℕ) × (Maps.get s c.channels ≡ some (open_channel w))

Waiting-of_entry :
    (c : Client) (s : ℕ) → Inv c → Maps.get s c.awaiting_response ≡ some tt → Waiting c s
Waiting-of_entry c s h e = go (Maps.get s c.channels) refl (h.sounds s)
  where
    go :
        (o : Option (Channel Notice))
        → Maps.get s c.channels ≡ o
        → IsSound (Maps.get s c.awaiting_response) (Maps.get s c.protocol.incoming) o
        → Waiting c s
    go (some _) x (waits w y) = (w, x)
    go none x (absent y) = cc
    go (some _) x (answered y z) = cc
    go (some _) x (closed z y) = cc

dispatch-waiting :
    (s : ℕ) (c : Client) (w : Option ℕ)
    → Maps.get s c.awaiting_response ≡ some tt
    → Maps.get s c.channels ≡ some (open_channel w)
    → dispatch (some s) c
      ≡ ok (
          maybe_wake_sender (record c {
            channels = Maps.insert s (told_channel none) c.channels;
            awaiting_response = Maps.remove s c.awaiting_response;
          }))
unfolding dispatch
dispatch-waiting s c w e x = rw (e, dispatch) (rw (notify_open s none c.channels w x) refl)

-- A call that waits gets the response to itself: when a message with its sync in the header has been
-- received on a ready connection, the next poll of the call answers with what the request's decoder
-- makes of the bytes behind the header, whatever other calls are in flight.
pub send-answered :
    {R : Type 0} (rmp : Rmp) (config : Config) (c : Client) (request : Request R) (n t s v task : ℕ)
    (chunk : Cursor) (bs : Bytes)
    → Reach rmp config c
    → Maps.get s c.awaiting_response ≡ some tt
    → c.protocol.phase ≡ ready
    → c.protocol.msg_size_hint ≡ some n
    → t < 2 ^ 15
    → s < 2 ^ 64
    → v < 2 ^ 64
    → rest chunk ≡ packet rmp (type t ∷ sync s ∷ version v ∷ []) ++ bs
    → (d : Client) × (receiver_round rmp chunk c ≡ ok d)
      × ((poll_send request s task d).0
          ≡ response (some (request.decode_response_body (at_start bs))))
unfolding receiver_round received_data
send-answered rmp config c request n t s v task chunk bs r e now_ready expected ht hs hv message =
    let (w, x) = Waiting-of_entry c s (Reach-Inv r) e in
    let p = process_pending_data (stored rmp c.protocol n now_ready expected s (body bs)) in
    let told : Client = record c {
      protocol = p;
      channels = Maps.insert s (told_channel none) c.channels;
      awaiting_response = Maps.remove s c.awaiting_response;
    } in
    (
      maybe_wake_sender told,
      ap (λ q. received_data q c)
            (process_incoming-response rmp c.protocol n now_ready expected chunk t s v bs ht hs hv
              message)
          ∙ dispatch-waiting s (record c { protocol = p }) w e x,
      poll_send-maybe_wake_sender request s task told
            (Maps.get-insert_self s (told_channel none) c.channels)
          ∙ ap response (
              take_response-body request s p bs (
                stored-process_pending_data (record c.protocol { msg_size_hint = none }) s
                  (body bs))),
    )

dispatch-absent :
    (s : ℕ) (c : Client)
    → Maps.get s c.awaiting_response ≡ none
    → dispatch (some s) c ≡ ok (maybe_wake_sender c)
unfolding dispatch
dispatch-absent s c e = rw (e, dispatch) refl

filed-maybe_wake_sender :
    (c : Client)
    → ((maybe_wake_sender c).protocol ≡ c.protocol) × ((maybe_wake_sender c).channels ≡ c.channels)
unfolding maybe_wake_sender
filed-maybe_wake_sender c = ground arith

-- When a call was cancelled and its response arrives all the same, the response is filed, and stays
-- with the connection, though no call is left that could take it.
pub cancelled-filed :
    (rmp : Rmp) (c : Client) (n t s v : ℕ) (chunk : Cursor) (bs : Bytes)
    → c.protocol.phase ≡ ready
    → c.protocol.msg_size_hint ≡ some n
    → t < 2 ^ 15
    → s < 2 ^ 64
    → v < 2 ^ 64
    → rest chunk ≡ packet rmp (type t ∷ sync s ∷ version v ∷ []) ++ bs
    → (d : Client) × (receiver_round rmp chunk (forget s c) ≡ ok d)
      × (Maps.get s d.protocol.incoming ≡ some (body bs))
      × (Maps.get s d.channels ≡ none)
unfolding receiver_round received_data forget
cancelled-filed rmp c n t s v chunk bs now_ready expected ht hs hv message =
    let p = process_pending_data (stored rmp c.protocol n now_ready expected s (body bs)) in
    let left : Client = record (forget s c) { protocol = p } in
    let kept = filed-maybe_wake_sender left in
    (
      maybe_wake_sender left,
      ap (λ q. received_data q (forget s c))
            (process_incoming-response rmp c.protocol n now_ready expected chunk t s v bs ht hs hv
              message)
          ∙ dispatch-absent s left (Maps.get-remove_self s c.awaiting_response),
      ap (λ q. Maps.get s q.incoming) kept.0
          ∙ stored-process_pending_data (record c.protocol { msg_size_hint = none }) s (body bs),
      ap (Maps.get s) kept.1 ∙ Maps.get-remove_self s c.channels,
    )
