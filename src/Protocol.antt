-- ===== src/Protocol.antt =====
-- tarantool/src/network/protocol/mod.rs: the connection handler without a transport. Each method
-- takes the state and returns its result with the new state.
pub mod Rmp
pub mod Header
pub mod Errors
pub mod Buffer
pub mod Codec
pub mod Api
pub mod Outgoing
pub mod Session
pub mod Handshake
pub mod Incoming
pub mod Filed
mod Tests
use tarantool_module.Base.{
  ℕ, ◌+◌, ◌%◌, ◌^◌, Bool, true, false, List, [], ◌∷◌, ◌++◌, Option, none, some, ltb, ◌==◌,
  if◌then◌else◌, length,
}
use tarantool_module.Base.Maps
use tarantool_module.Io.{
  Bytes, Cursor, Result, ok, err, BoxError, remote, zero_size_hint, at_start, read_to_end,
}
use tarantool_module.Msgpack.Writer.{Serialized}
use Rmp.{Rmp as Codecs}
use Header.{Header as Head, error_type}
use Errors
use Buffer.{write_to_buffer}
use Codec.{decode_greeting}
use Api.{Request, encode, auth}

-- `enum State`
pub data Phase : Type 0 where
  init auth_wait ready : Phase

-- `Config`; the timeout is the transport's.
pub record Config : Type 0 where
  pub creds : Option (Bytes × Bytes)

-- What `incoming` holds under a sync.
pub data Response : Type 0 where
  body : Bytes → Response
  failure : BoxError → Response

pub record Protocol : Type 0 where
  pub phase : Phase
  pub msg_size_hint : Option ℕ
  pub outgoing : Bytes
  pub pending_outgoing : Bytes
  pub sync : ℕ
  pub incoming : List (ℕ × Response)
  pub creds : Option (Bytes × Bytes)

-- `AuthMethod::default().as_str()`, "chap-sha1"
abbrev pub chap_sha1 : Bytes
chap_sha1 = 99 ∷ 104 ∷ 97 ∷ 112 ∷ 45 ∷ 115 ∷ 104 ∷ 97 ∷ 49 ∷ []

unfoldable pub new : Protocol
new = record {
  phase = init;
  msg_size_hint = some 128;
  outgoing = [];
  pending_outgoing = [];
  sync = 0;
  incoming = [];
  creds = none;
}

unfoldable pub with_config : Config → Protocol
unfolding new
with_config config = record new { creds = config.creds }

unfoldable pub is_ready : Protocol → Bool
is_ready p = elim p.phase [ ready ↦ true | _ ↦ false ]

-- `SyncIndex::next_index`; the counter is a `u64`.
unfoldable pub next_index : ℕ → ℕ
next_index sync = (sync + 1) % 2 ^ 64

unfoldable pub process_pending_data : Protocol → Protocol
unfolding is_ready
process_pending_data p =
    if is_ready p
    then record p { outgoing = p.outgoing ++ p.pending_outgoing; pending_outgoing = [] }
    else p

pub read_size_hint : Protocol → ℕ
read_size_hint p = elim p.msg_size_hint [ some hint ↦ hint | none ↦ 5 ]

pub take_outgoing_data : Protocol → Bytes × Protocol
take_outgoing_data p = (p.outgoing, record p { outgoing = [] })

pub drop_response : ℕ → Protocol → Protocol
drop_response sync p = record p { incoming = Maps.remove sync p.incoming }

-- What the caller gets for a response that was filed, or not.
pub answer : {R : Type 0} → Request R → Option Response → Option (Result R)
answer request none = none
answer request (some (failure e)) = some (err (remote e))
answer request (some (body bs)) = some (request.decode_response_body (at_start bs))

pub take_response : {R : Type 0} → Request R → ℕ → Protocol → Option (Result R) × Protocol
unfolding answer
take_response request sync p =
    (answer request (Maps.get sync p.incoming), record p { incoming = Maps.remove sync p.incoming })

module _ (rmp : Codecs) where
  -- `send_request` behind the write. After an error `pending_outgoing` keeps what was written.
  after_write : Protocol → Result (Unit {0}) × Cursor → Result ℕ × Protocol
  unfolding process_pending_data next_index
  after_write p (err e, buf) = (err e, record p { pending_outgoing = buf.bytes })
  after_write p (ok _, buf) =
      let p' = process_pending_data (record p { pending_outgoing = buf.bytes }) in
      (ok p'.sync, record p' { sync = next_index p'.sync })

  unfoldable pub send_request : {R : Type 0} → Request R → Protocol → Result ℕ × Protocol
  unfolding after_write
  send_request request p =
      let end : Cursor = record { bytes = p.pending_outgoing; pos = length p.pending_outgoing } in
      after_write p (write_to_buffer rmp (encode rmp request p.sync) end)

  -- The greeting: authentication is written straight to `outgoing`, from its start.
  start_auth : Protocol → Result (Unit {0}) × Cursor → Result (Unit {0}) × Protocol
  unfolding next_index
  start_auth p (outcome, buf) =
      (outcome, record p { phase = auth_wait; outgoing = buf.bytes; sync = next_index p.sync })

  process_greeting : Cursor → Protocol → Result (Unit {0}) × Protocol
  unfolding start_auth
  process_greeting message p = elim (decode_greeting rmp message) [
    | err e ↦ (err e, p)
    | ok salt ↦ elim p.creds [
      | none ↦ (ok tt, record p { phase = ready })
      | some (user, pass) ↦
          let request = auth rmp user pass salt chap_sha1 in
          start_auth p (write_to_buffer rmp (encode rmp request p.sync) (at_start p.outgoing))
    ]
  ]

  -- The answer to the authentication request.
  process_auth : Cursor → Protocol → Result (Unit {0}) × Protocol
  process_auth message p = elim (Header.decode rmp message) [
    | err e ↦ (err e, p)
    | ok (header, c) ↦
        if header.iproto_type == error_type
        then elim (Errors.decode_error rmp header c) [
          | err e ↦ (err e, p)
          | ok (e, _) ↦ (err (remote e), p)
        ]
        else (ok tt, record p { phase = ready })
  ]

  -- What `incoming` gets: the decoded error, or the rest of the message.
  read_response : Head → Cursor → Result Response
  read_response header c =
      if header.iproto_type == error_type
      then elim (Errors.decode_error rmp header c) [ err e ↦ err e | ok (e, _) ↦ ok (failure e) ]
      else ok (body (read_to_end c).0)

  process_response : Cursor → Protocol → Result ℕ × Protocol
  unfolding read_response
  process_response message p = elim (Header.decode rmp message) [
    | err e ↦ (err e, p)
    | ok (header, c) ↦ elim (read_response header c) [
      | err e ↦ (err e, p)
      | ok r ↦ (ok header.sync, record p { incoming = Maps.insert header.sync r p.incoming })
    ]
  ]

  -- The end of `process_message`, which an error has left before.
  abbrev settle {ℓ} :
      {A : Type ℓ} → (A → Option ℕ) → Result A × Protocol → Result (Option ℕ) × Protocol
  settle f (ok a, p) = (ok (f a), process_pending_data p)
  settle f (err e, p) = (err e, p)

  unfoldable pub process_message : Cursor → Protocol → Result (Option ℕ) × Protocol
  unfolding process_greeting process_auth process_response process_pending_data
  process_message message p = elim p.phase [
    | init ↦ settle (λ _. none) (process_greeting message p)
    | auth_wait ↦ settle (λ _. none) (process_auth message p)
    | ready ↦ settle (λ sync. some sync) (process_response message p)
  ]

  -- `process_incoming`, by turns on a message and on the size of the next one.
  unfoldable pub process_incoming : Cursor → Protocol → Result (Option ℕ) × Protocol
  unfolding process_message
  process_incoming chunk p = elim p.msg_size_hint [
    | some _ ↦ process_message chunk (record p { msg_size_hint = none })
    | none ↦ elim (rmp.read_u32 chunk) [
      | err e ↦ (err e, p)
      | ok (hint, _) ↦
          if ltb 0 hint
          then (ok none, record p { msg_size_hint = some hint })
          else (err zero_size_hint, p)
    ]
  ]
