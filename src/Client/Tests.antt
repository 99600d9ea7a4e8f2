-- ===== src/Client/Tests.antt =====
-- The theorems on the clients of tarantool/src/network/client at concrete runs.
use tarantool_module.Fiber.Mutex as Mutex
use tarantool_module.Client.Reconnect as Reconnect
use tarantool_module.Client.Reconnect.{ask, answer}
use tarantool_module.Client.Reconnect.Sharing as Sharing
use tarantool_module.Client.Reconnect.Sharing.{Clones, asked, finished, count, is_empty, ask-shared}
use tarantool_module.Base.{
  ◌≡◌, ◌≢◌, ◌⊎◌, ℕ, ◌+◌, true, refl, [], ◌∷◌, ◌++◌, none, some, replicate, arith, false,
}
use tarantool_module.Base.Maps
use tarantool_module.Io.{Bytes, Cursor, ok, err, panic, at_start, write_all, read_exact, from_be}
use tarantool_module.Protocol.{
  Config, ready, new, with_config, is_ready, next_index, process_pending_data, send_request,
  process_message, process_incoming, body, take_response,
}
use tarantool_module.Protocol.Buffer.{write_to_buffer}
use tarantool_module.Protocol.Header.{encode_header}
use tarantool_module.Protocol.Header.Laws.{packet, type, sync, version}
use tarantool_module.Protocol.Codec.{encode_ping, decode_greeting}
use tarantool_module.Protocol.Api.{Request, ping, encode}
use tarantool_module.Client
use tarantool_module.Client.{
  Client, alive, panicked, begin_send, poll_send, receiver_round, forget, response,
}
use tarantool_module.Client.Steps.{calling, receiving, Reach, start, next}
use tarantool_module.Client.Invariant.{no_panic, sender_awake}
use tarantool_module.Client.Delivery.{send-answered, cancelled-filed}
use tarantool_module.Sample.{rmp, read_be}

abbrev config : Config
config = record { creds = none }

abbrev pinger : Request (Unit {0})
pinger = ping rmp

abbrev called : Client
called = (begin_send rmp pinger (Client.new config)).1

called-Reach : Reach rmp config called
called-Reach = next start (calling pinger)

abbrev greeted : Client
greeted = record called {
  protocol = record called.protocol {
    phase = ready;
    msg_size_hint = none;
    outgoing = called.protocol.pending_outgoing;
    pending_outgoing = [];
  };
}

greeted_lem : receiver_round rmp (at_start (replicate 128 65)) called ≡ ok greeted
unfolding receiver_round Client.received_data Client.dispatch Client.maybe_wake_sender begin_send
    Client.subscribe Client.new with_config new is_ready next_index process_pending_data
    send_request process_message process_incoming write_to_buffer encode_header encode_ping
    decode_greeting ping encode write_all read_exact
greeted_lem = refl

abbrev sized : Client
sized = record greeted { protocol = record greeted.protocol { msg_size_hint = some 30 } }

sized_lem : receiver_round rmp (at_start (rmp.write_u32 30)) greeted ≡ ok sized
unfolding receiver_round Client.received_data Client.dispatch Client.maybe_wake_sender begin_send
    Client.subscribe Client.new with_config new is_ready next_index process_pending_data
    send_request process_message process_incoming write_to_buffer encode_header encode_ping ping
    encode write_all read_exact read_be from_be
sized_lem = refl

sized-Reach : Reach rmp config sized
sized-Reach =
    next (next called-Reach (receiving (at_start (replicate 128 65)) greeted_lem))
      (receiving (at_start (rmp.write_u32 30)) sized_lem)

abbrev pong : Bytes
pong = 0x80 ∷ []

abbrev reply : Cursor
reply = at_start (packet rmp (type 0 ∷ sync 0 ∷ version 80 ∷ []) ++ pong)

waits_lem : (Maps.get 0 sized.awaiting_response ≡ some tt) × (sized.state ≡ alive)
unfolding begin_send Client.subscribe Client.maybe_wake_sender Client.new with_config new is_ready
    next_index process_pending_data send_request write_to_buffer encode_header encode_ping ping
    encode write_all
waits_lem = (refl, refl)

send-answered_example :
    (d : Client) × (receiver_round rmp reply sized ≡ ok d)
    × ((poll_send pinger 0 9 d).0 ≡ response (some (pinger.decode_response_body (at_start pong))))
send-answered_example =
    send-answered rmp config sized pinger 30 0 0 80 9 reply pong sized-Reach (waits_lem.0) refl refl
      (omega arith) (omega arith) (omega arith) refl

cancelled-filed_example :
    (d : Client) × (receiver_round rmp reply (forget 0 sized) ≡ ok d)
    × (Maps.get 0 d.protocol.incoming ≡ some (body pong))
    × (Maps.get 0 d.channels ≡ none)
cancelled-filed_example =
    cancelled-filed rmp sized 30 0 0 80 reply pong refl refl (omega arith) (omega arith)
      (omega arith) refl

no_panic_example :
    ((poll_send pinger 0 9 sized).0 ≡ panicked
      → (take_response pinger 0 sized.protocol).0 ≡ some (err panic))
    × (((d : Client) × (receiver_round rmp reply sized ≡ ok d))
        ⊎ ((process_incoming rmp reply sized.protocol).0 ≡ err panic))
no_panic_example = no_panic rmp config sized pinger 0 9 reply sized-Reach

some_bytes : sized.protocol.outgoing ≢ []
unfolding begin_send Client.subscribe Client.maybe_wake_sender Client.new with_config new is_ready
    next_index process_pending_data send_request write_to_buffer encode_header encode_ping ping
    encode write_all
some_bytes = λ e. cc

sender_awake_example : sized.sender_asleep ≡ false
sender_awake_example = sender_awake rmp config sized sized-Reach (waits_lem.1) some_bytes

-- One clone connects while another one waits.
abbrev two_clones : Clones ℕ
two_clones = asked 4 (asked 3 Sharing.start)

abbrev shared : Clones ℕ
shared = finished (Reconnect.client 7) two_clones

connecting_lem : two_clones.is_connecting ≡ true
unfolding ask Reconnect.with_config Mutex.new Mutex.poll Mutex.guard Mutex.add_waker
connecting_lem = refl

ask-shared_example :
    (shared.connects + count (is_empty shared) ≡ 1 + shared.resets + shared.gave_up)
    × (shared.is_connecting ≡ true → (ask 4 shared.mutex).0 ≡ Reconnect.waiting)
    × ((slot : Reconnect.Slot ℕ)
        → shared.mutex.contents ≡ some slot
        → ((ask 4 shared.mutex).0 ≡ answer slot) × ((ask 4 shared.mutex).2.contents ≡ some slot))
ask-shared_example = ask-shared shared 4 (
    Sharing.finishing (Sharing.asking (Sharing.asking Sharing.begin 3) 4) connecting_lem
      (Reconnect.client 7))
