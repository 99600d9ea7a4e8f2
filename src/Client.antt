-- ===== src/Client.antt =====
-- tarantool/src/network/client/mod.rs: the client over a connection, which many fibers share. The
-- two workers and the calls in flight are given by what they do between two yields.
pub mod Steps
pub mod Entries
pub mod Calls
pub mod Invariant
pub mod Delivery
pub mod Reconnect
mod Tests
use tarantool_module.Base.{
  ℕ, ◌+◌, ◌-◌, Bool, true, false, List, [], ◌∷◌, Option, none, some, ◌==◌, if◌then◌else◌, length,
}
use tarantool_module.Base.Maps
use tarantool_module.Io.{Bytes, Cursor, Error, Result, ok, err, panic, remote, BoxError}
use tarantool_module.Fiber.Oneshot as Oneshot
use tarantool_module.Fiber.Oneshot.{Channel, Poll, received}
use tarantool_module.Protocol.Rmp.{Rmp}
use tarantool_module.Protocol.Api.{Request}
use tarantool_module.Protocol.{
  Protocol, Config, with_config, send_request, take_response, take_outgoing_data, process_incoming,
}

pub data ClientError : Type 0 where
  connection_closed request_encode response_decode : Error → ClientError
  error_response : BoxError → ClientError

pub data State : Type 0 where
  alive closed_manually : State
  closed_with_error : Error → State

-- What a call is told: nothing, if its response is there, or why the connection was closed.
abbrev pub Notice : Type 0
Notice = Option Error

-- `ClientInner`, with the channels that the calls in flight wait on, by the sync of the call. The
-- map `awaiting_response` holds the senders of the channels whose syncs are its keys. A fiber that
-- waits for a wakeup is `asleep`.
pub record Client : Type 0 where
  pub protocol : Protocol
  pub awaiting_response : List (ℕ × Unit {0})
  pub channels : List (ℕ × Channel Notice)
  pub state : State
  pub sender_asleep : Bool
  pub clients_count : ℕ

pub new : Config → Client
new config = record {
  protocol = with_config config;
  awaiting_response = [];
  channels = [];
  state = alive;
  sender_asleep = false;
  clients_count = 1;
}

-- `wakeup` of the fiber that sends, if there is anything to send
pub maybe_wake_sender : Client → Client
maybe_wake_sender c =
    if length c.protocol.outgoing == 0 then c else record c { sender_asleep = false }

-- The start of a call: it is refused, or waits under its sync, or it panics.
pub data Started : Type 0 where
  refused : ClientError → Started
  waits : ℕ → Started
  panics : Started

-- `Err(ClientError::RequestEncode(e))`; a panic of the request's encoding goes on as such.
pub refusal : Error → Started
refusal panic = panics
refusal e = refused (request_encode e)

-- What `send` does with the answer of the protocol. Behind it the call waits.
pub subscribe : Result ℕ × Protocol → Client → Started × Client
unfolding maybe_wake_sender refusal
subscribe (err e, p) c = (refusal e, record c { protocol = p })
subscribe (ok sync, p) c = (
  waits sync,
  maybe_wake_sender (record c {
    protocol = p;
    channels = Maps.insert sync Oneshot.channel c.channels;
    awaiting_response = Maps.insert sync tt c.awaiting_response;
  }),
)

-- `AsClient::send` up to its `await`, with `check_state` and its `unreachable!`
pub begin_send : {R : Type 0} → Rmp → Request R → Client → Started × Client
unfolding subscribe
begin_send rmp request c = elim c.state [
  | closed_with_error e ↦ (refused (connection_closed e), c)
  | closed_manually ↦ (panics, c)
  | alive ↦ subscribe (send_request rmp request c.protocol) c
]

-- What a poll of a call answers. The `expect`s of the code, and a panic of the response's decoder,
-- are `panicked`.
pub data Answer (R : Type 0) : Type 0 where
  waiting panicked : Answer R
  done : R → Answer R
  failed : ClientError → Answer R

-- `on_drop`: the call's future is gone, and with it the receiver and the entry.
pub forget : ℕ → Client → Client
forget sync c = record c {
  channels = Maps.remove sync c.channels;
  awaiting_response = Maps.remove sync c.awaiting_response;
}

-- The error of a response; a panic of its decoder goes on as such.
pub response_error : {R : Type 0} → Error → Answer R
response_error panic = panicked
response_error (remote e) = failed (error_response e)
response_error e = failed (response_decode e)

-- What a call answers that takes its response.
pub response : {R : Type 0} → Option (Result R) → Answer R
unfolding response_error
response none = panicked
response (some (ok r)) = done r
response (some (err e)) = response_error e

-- `AsClient::send` behind its `await`
pub finish_send : {R : Type 0} → Request R → ℕ → Notice → Client → Answer R × Client
unfolding response forget
finish_send request sync (some e) c = (failed (connection_closed e), forget sync c)
finish_send request sync none c =
    let taken = take_response request sync c.protocol in
    (response taken.0, record (forget sync c) { protocol = taken.1 })

-- What a poll of the call's channel leads to.
pub resume :
    {R : Type 0} → Request R → ℕ → Poll Notice × Channel Notice → Client → Answer R × Client
unfolding finish_send
resume request sync (Oneshot.waiting, ch) c =
    (waiting, record c { channels = Maps.insert sync ch c.channels })
resume request sync (Oneshot.closed, ch) c = (panicked, c)
resume request sync (received notice, ch) c = finish_send request sync notice c

-- A poll of the call that waits under a sync; `waiting` if there is none.
pub poll_send : {R : Type 0} → Request R → ℕ → ℕ → Client → Answer R × Client
unfolding resume
poll_send request sync task c = elim (Maps.get sync c.channels) [
  | none ↦ (waiting, c)
  | some ch ↦ resume request sync (Oneshot.poll task ch) c
]

-- `subscription.send`: the channels behind it, if the receiver is still there.
pub notify : ℕ → Notice → List (ℕ × Channel Notice) → Option (List (ℕ × Channel Notice))
notify sync notice channels = elim (Maps.get sync channels) [
  | none ↦ none
  | some ch ↦ elim (Oneshot.send notice ch).0 [
    | some _ ↦ none
    | none ↦ some (Maps.insert sync (Oneshot.send notice ch).2 channels)
  ]
]

-- `let _ = subscription.send(...)`
abbrev pub ignore_error {ℓ} : {A : Type ℓ} → A → Option A → A
ignore_error a none = a
ignore_error a (some b) = b

-- The loop over the drained subscriptions, which ignores errors.
pub notify_all : List ℕ → Notice → List (ℕ × Channel Notice) → List (ℕ × Channel Notice)
notify_all [] notice channels = channels
notify_all (sync ∷ syncs) notice channels =
    notify_all syncs notice (ignore_error channels (notify sync notice channels))

-- `handle_result!` at an error
pub close_with : Error → Client → Client
close_with e c = record c {
  channels = notify_all (Maps.keys c.awaiting_response) (some e) c.channels;
  awaiting_response = [];
  state = closed_with_error e;
}

-- One round of `sender` from its check on: the bytes that it writes, if it does not stop or sleep.
pub sender_round : Client → Option Bytes × Client
sender_round c = elim c.state [
  | alive ↦
      let taken = take_outgoing_data c.protocol in
      if length taken.0 == 0
      then (none, record c { protocol = taken.1; sender_asleep = true })
      else (some taken.0, record c { protocol = taken.1; sender_asleep = false })
  | _ ↦ (none, c)
]

-- The end of a round of `receiver`: whose call is told that its response is there.
pub dispatch : Option ℕ → Client → Result Client
unfolding maybe_wake_sender
dispatch none c = ok (maybe_wake_sender c)
dispatch (some sync) c = elim (Maps.get sync c.awaiting_response) [
  | none ↦ ok (maybe_wake_sender c)
  | some _ ↦ elim (notify sync none c.channels) [
    | none ↦ err panic
    | some channels ↦ ok (
        maybe_wake_sender (record c {
          channels = channels;
          awaiting_response = Maps.remove sync c.awaiting_response;
        }))
  ]
]

-- `handle_result!` at the result of `process_incoming`: a panic is none, and goes on as such.
pub handle_error : Error → Client → Result Client
unfolding close_with
handle_error panic c = err panic
handle_error e c = ok (close_with e c)

-- A round of `receiver` behind a successful read.
pub received_data : Result (Option ℕ) × Protocol → Client → Result Client
unfolding dispatch handle_error
received_data (err e, p) c = handle_error e (record c { protocol = p })
received_data (ok sync, p) c = dispatch sync (record c { protocol = p })

pub receiver_round : Rmp → Cursor → Client → Result Client
unfolding received_data
receiver_round rmp chunk c = received_data (process_incoming rmp chunk c.protocol) c

-- `Clone` and `Drop` of a handle; the last one closes the client.
pub clone_handle : Client → Client
clone_handle c = record c { clients_count = c.clients_count + 1 }

pub drop_handle : Client → Client
drop_handle c =
    if c.clients_count == 1
    then record c { state = closed_manually }
    else record c { clients_count = c.clients_count - 1 }
