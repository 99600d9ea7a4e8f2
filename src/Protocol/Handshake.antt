-- ===== src/Protocol/Handshake.antt =====
-- The greeting and the authentication in tarantool/src/network/protocol/mod.rs.
use tarantool_module.Base.{ℕ, ◌≡◌, ◌≢◌, [], none, some, ne→==_false}
use tarantool_module.Io.{Bytes, Cursor, ok}
use tarantool_module.Protocol.Rmp.{Rmp}
use tarantool_module.Protocol.Header.{Header, error_type}
use tarantool_module.Protocol.Header
use tarantool_module.Protocol.Codec.{decode_greeting}
use tarantool_module.Protocol.Api.{encode, auth}
use tarantool_module.Protocol.Buffer.Laws.{frame, write_to_buffer-frame}
use tarantool_module.Protocol.Outgoing.{stream, Fits, payload}
use tarantool_module.Protocol.Session.{IsSettled}
use tarantool_module.Protocol.{
  Protocol, init, auth_wait, ready, chap_sha1, is_ready, next_index, process_pending_data,
  start_auth, process_greeting, process_auth, process_message, process_incoming,
}

-- Without credentials the greeting makes the connection ready, and all that was queued is out, in
-- order.
process_incoming-greeting :
    (rmp : Rmp) (chunk : Cursor) (p : Protocol) (n : ℕ) (salt : Bytes)
    → IsSettled p
    → p.phase ≡ init
    → p.msg_size_hint ≡ some n
    → p.creds ≡ none
    → decode_greeting rmp chunk ≡ ok salt
    → process_incoming rmp chunk p ≡ (
      ok none,
      record p {
        phase = ready;
        msg_size_hint = none;
        outgoing = p.pending_outgoing;
        pending_outgoing = [];
      },
    )
unfolding process_incoming process_message process_greeting process_pending_data
process_incoming-greeting rmp chunk p n salt s i h c g =
    simp
      (h, i, g, c, s.silent i, process_incoming, process_greeting, process_pending_data, is_ready)

-- With credentials the greeting is answered by one frame, the authentication request made with the
-- greeting's salt, and by nothing else: what was queued goes on waiting.
process_incoming-greeting_auth :
    (rmp : Rmp) (chunk : Cursor) (p : Protocol) (n : ℕ) (user pass salt : Bytes)
    → IsSettled p
    → p.phase ≡ init
    → p.msg_size_hint ≡ some n
    → p.creds ≡ some (user, pass)
    → decode_greeting rmp chunk ≡ ok salt
    → Fits rmp (auth rmp user pass salt chap_sha1) p.sync
    → process_incoming rmp chunk p ≡ (
      ok none,
      record p {
        phase = auth_wait;
        msg_size_hint = none;
        outgoing = frame rmp (payload rmp (auth rmp user pass salt chap_sha1) p.sync);
        sync = next_index p.sync;
      },
    )
unfolding process_incoming process_message process_greeting process_pending_data start_auth
process_incoming-greeting_auth rmp chunk p n user pass salt s i h c g f =
    let (d, e, b) =
      write_to_buffer-frame rmp [] (encode rmp (auth rmp user pass salt chap_sha1) p.sync) f.written
        f.short in
    simp (
      h,
      i,
      g,
      c,
      s.silent i,
      e,
      b,
      process_incoming,
      process_greeting,
      process_pending_data,
      is_ready,
    )

-- An answer to the authentication that is no error makes the connection ready, and the queue leaves
-- behind what is already out.
process_incoming-auth_reply :
    (rmp : Rmp) (chunk d : Cursor) (p : Protocol) (n : ℕ) (header : Header)
    → p.phase ≡ auth_wait
    → p.msg_size_hint ≡ some n
    → Header.decode rmp chunk ≡ ok (header, d)
    → header.iproto_type ≢ error_type
    → process_incoming rmp chunk p ≡ (
      ok none,
      record p { phase = ready; msg_size_hint = none; outgoing = stream p; pending_outgoing = [] },
    )
unfolding process_incoming process_message process_auth process_pending_data
process_incoming-auth_reply rmp chunk d p n header i h g e = simp (
  h,
  i,
  g,
  ne→==_false header.iproto_type error_type e,
  process_incoming,
  process_auth,
  process_pending_data,
  is_ready,
)
