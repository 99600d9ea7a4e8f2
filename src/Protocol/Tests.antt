-- ===== src/Protocol/Tests.antt =====
-- The theorems on the protocol at concrete requests and messages.
use tarantool_module.Base.{ℕ, ◌+◌, ◌≡◌, refl, List, [], ◌∷◌, ◌++◌, some, length, replicate, arith}
use tarantool_module.Io.{Cursor, ok, err, at_start, advance, panic, read_exact}
use tarantool_module.Msgpack.Writer.{Serialized}
use tarantool_module.Msgpack.Format.{leaf}
use tarantool_module.Msgpack.Rmp.{u8}
use tarantool_module.Protocol.Header
use tarantool_module.Protocol.Header.{Header, no_fields, finish}
use tarantool_module.Protocol.Header.Laws.{
  Entry, type, sync, version, other, packet, with_end, apply_all, decode-entries,
}
use tarantool_module.Protocol.Buffer.{write_to_buffer}
use tarantool_module.Protocol.Buffer.Laws.{at_end, frame, write_to_buffer-frame}
use tarantool_module.Protocol.Codec.{
  bytes, xor_bytes, chap_sha1_auth_data, encode_auth, encode_ping, decode_greeting,
}
use tarantool_module.Protocol.Codec.Body.{field, others}
use tarantool_module.Protocol.Api.{Request, ping, auth, encode}
use tarantool_module.Protocol.Outgoing.{
  stream, Fits, payload, frames, send_all, stream-send_all, send_request-failed,
}
use tarantool_module.Protocol.Session.{IsSettled, send, step, step-IsSettled}
use tarantool_module.Protocol.Incoming.{stored, process_incoming-response}
use tarantool_module.Protocol.{
  Protocol, init, auth_wait, ready, body, new, process_pending_data, send_request, process_incoming,
  chap_sha1,
}
use tarantool_module.Sample.{rmp}

abbrev message : Serialized
message = bytes (1 ∷ 2 ∷ 3 ∷ [])

abbrev broken : Request (Unit {0})
broken = record {
  type = 10;
  encode_body = record { written = 1 ∷ []; outcome = err panic };
  decode_response_body = λ c. ok tt;
}

ping-Fits : (n : ℕ) → Fits rmp (ping rmp) n
unfolding ping encode encode_ping Header.encode_header
ping-Fits n = record { written = refl; short = omega arith }

auth-Fits : Fits rmp (auth rmp (117 ∷ []) (112 ∷ []) (replicate 44 65) chap_sha1) 0
unfolding auth encode encode_auth chap_sha1_auth_data xor_bytes Header.encode_header
auth-Fits = record { written = refl; short = omega arith }

write_to_buffer-frame_example :
    (c : Cursor) × (write_to_buffer rmp message (at_end (9 ∷ [])) ≡ (ok tt, c))
    × (c.bytes ≡ 9 ∷ frame rmp (1 ∷ 2 ∷ 3 ∷ []))
write_to_buffer-frame_example = write_to_buffer-frame rmp (9 ∷ []) message refl (omega arith)

stream-send_all_example :
    stream (send_all rmp (ping rmp ∷ ping rmp ∷ []) new)
    ≡ stream new ++ frames rmp 0 (ping rmp ∷ ping rmp ∷ [])
unfolding new
stream-send_all_example =
    stream-send_all rmp (ping rmp ∷ ping rmp ∷ []) new (ping-Fits 0, (ping-Fits 1, tt))

send_request-failed_example :
    send_request rmp broken new
    ≡ (err panic, record new { pending_outgoing = rmp.write_u32 0 ++ payload rmp broken 0 })
unfolding new encode
send_request-failed_example = send_request-failed rmp broken new panic refl

new-IsSettled : IsSettled new
unfolding new
new-IsSettled = record { flushed = λ e. refl; silent = λ e. refl }

step-IsSettled_example : IsSettled (step rmp (send (ping rmp)) new)
unfolding new
step-IsSettled_example = step-IsSettled rmp (send (ping rmp)) new (ping-Fits 0) new-IsSettled

abbrev header : List Entry
header = version 80 ∷ other 9 (leaf u8 (5 ∷ [])) ∷ type 0 ∷ sync 7 ∷ []

abbrev header_cursor : Cursor
header_cursor = at_start (packet rmp header ++ (1 ∷ []))

decode-entries_example :
    Header.decode rmp header_cursor
    ≡ with_end rmp
        (advance (length (packet rmp header)) header_cursor)
        (finish (apply_all header no_fields))
decode-entries_example =
    decode-entries rmp header header_cursor (1 ∷ []) (omega arith) (omega arith) refl

abbrev error_header : List Entry
error_header = type (0x8000 + 20) ∷ sync 7 ∷ version 80 ∷ []

abbrev request_header : Header
request_header = record { sync = 3; iproto_type = 64; error_code = 0; schema_version = 0 }

abbrev greeting : Cursor
greeting = at_start (replicate 128 65)

greeting_salt : decode_greeting rmp greeting ≡ ok (replicate 44 65)
unfolding decode_greeting read_exact
greeting_salt = refl

abbrev with_creds : Protocol
with_creds = record {
  phase = init;
  msg_size_hint = some 128;
  outgoing = [];
  pending_outgoing = 5 ∷ [];
  sync = 0;
  incoming = [];
  creds = some (117 ∷ [], 112 ∷ []);
}

abbrev waiting : Protocol
waiting = record with_creds { phase = auth_wait; outgoing = 4 ∷ []; msg_size_hint = some 30 }

abbrev reply : List Entry
reply = type 0 ∷ sync 0 ∷ version 80 ∷ []

abbrev reply_cursor : Cursor
reply_cursor = at_start (packet rmp reply ++ (0x80 ∷ []))

reply_decoded :
    Header.decode rmp reply_cursor
    ≡ ok (
      record { sync = 0; iproto_type = 0; error_code = 0; schema_version = 80 },
      advance (length (packet rmp reply)) reply_cursor,
    )
reply_decoded =
    Header.Laws.decode-response rmp 0 0 80 reply_cursor (0x80 ∷ []) (omega arith) (omega arith)
      (omega arith) refl

abbrev connected : Protocol
connected = record with_creds { phase = ready; pending_outgoing = []; msg_size_hint = some 30 }

process_incoming-response_example :
    process_incoming rmp reply_cursor connected
    ≡ (ok (some 0), process_pending_data (stored rmp connected 30 refl refl 0 (body (0x80 ∷ []))))
process_incoming-response_example =
    process_incoming-response rmp connected 30 refl refl reply_cursor 0 0 80 (0x80 ∷ [])
      (omega arith) (omega arith) (omega arith) refl

abbrev answered : Cursor
answered = at_start (
    rmp.write_map_len 2
    ++ (others rmp ((0x42, leaf u8 (9 ∷ [])) ∷ [])
        ++ (field rmp 0x30 (leaf u8 (5 ∷ [])) ++ (7 ∷ []))))
