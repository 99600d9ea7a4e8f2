-- ===== src/Protocol/Incoming.antt =====
-- The responses in tarantool/src/network/protocol/mod.rs: from the bytes of a message to the caller.
use tarantool_module.Base.{
  ℕ, ◌^◌, ◌<◌, ◌≡◌, ◌≢◌, ap, [], ◌∷◌, ◌++◌, none, some, length, arith, ne→==_false, lt→ltb,
}
use tarantool_module.Base.Maps
use tarantool_module.Io.{Bytes, Cursor, ok, err, at_start, rest, read_to_end, zero_size_hint}
use tarantool_module.Io.Reads.{rest-advance_prefix}
use tarantool_module.Protocol.Rmp.{Rmp}
use tarantool_module.Protocol.Header.{error_type}
use tarantool_module.Protocol.Header.Laws.{packet, type, sync, version, decode-response}
use tarantool_module.Protocol.Api.{Request}
use tarantool_module.Protocol.{
  Protocol, Response, body, ready, process_pending_data, read_response, process_response,
  process_message, process_incoming, take_response, answer, read_size_hint,
}

module _ (rmp : Rmp) (p : Protocol) (n : ℕ) (now_ready : p.phase ≡ ready)
    (expected : p.msg_size_hint ≡ some n) where
  -- The state after a message of the ready phase, before waiting data is moved.
  abbrev pub stored : ℕ → Response → Protocol
  stored s r = record p { msg_size_hint = none; incoming = Maps.insert s r p.incoming }

  -- On a ready connection a response is filed under the sync of its header, with the bytes behind
  -- the header as its body; the caller is told that sync.
  pub process_incoming-response :
      (chunk : Cursor) (t s v : ℕ) (bs : Bytes)
      → t < 2 ^ 15
      → s < 2 ^ 64
      → v < 2 ^ 64
      → rest chunk ≡ packet rmp (type t ∷ sync s ∷ version v ∷ []) ++ bs
      → process_incoming rmp chunk p ≡ (ok (some s), process_pending_data (stored s (body bs)))
  unfolding process_incoming process_message process_response read_response read_to_end
  process_incoming-response chunk t s v bs ht hs hv e = simp (
    expected,
    now_ready,
    decode-response rmp t s v chunk bs ht hs hv e,
    ne→==_false t error_type (omega arith),
    rest-advance_prefix chunk (packet rmp (type t ∷ sync s ∷ version v ∷ [])) bs e,
    process_incoming,
    process_response,
    process_pending_data,
  )

-- What is filed under a sync is handed out once, to that sync, and decoded by the request; the
-- responses to other requests stay.
take_response-insert :
    {R : Type 0} (request : Request R) (p : Protocol) (s j : ℕ) (bs : Bytes)
    → j ≢ s
    → let q = record p { incoming = Maps.insert s (body bs) p.incoming } in
      ((take_response request s q).0 ≡ some (request.decode_response_body (at_start bs)))
      × ((take_response request s (take_response request s q).1).0 ≡ none)
      × ((take_response request j (take_response request s q).1).0 ≡ (take_response request j p).0)
unfolding take_response
take_response-insert request p s j bs h = (
  ap (answer request) {y = some (body bs)} (ground arith),
  ap (answer request) {y = none}
      (ground (arith, Maps.get-remove s s (Maps.insert s (body bs) p.incoming))),
  ap (answer request) {y = Maps.get j p.incoming} (
      ground (
        arith,
        Maps.get-remove s j (Maps.insert s (body bs) p.incoming),
        Maps.get-insert s j (body bs) p.incoming,
      )),
)

-- A size other than zero is what the transport is asked to read next; in between
-- the transport is asked for the five bytes of a size.
process_incoming-size :
    (rmp : Rmp) (p : Protocol) (n : ℕ) (chunk : Cursor) (more : Bytes)
    → p.msg_size_hint ≡ none
    → 0 < n
    → n < 2 ^ 32
    → rest chunk ≡ rmp.write_u32 n ++ more
    → (process_incoming rmp chunk p ≡ (ok none, record p { msg_size_hint = some n }))
      × (read_size_hint p ≡ length (rmp.write_u32 n))
      × (read_size_hint (process_incoming rmp chunk p).1 ≡ n)
unfolding process_incoming read_size_hint
process_incoming-size rmp p n chunk more e pos h r =
    let got = rmp.read_u32-Reads n h chunk more r in
    (
      simp (e, got, lt→ltb 0 n pos, process_incoming),
      simp (e, rmp.length-write_u32 n, read_size_hint),
      simp (e, got, lt→ltb 0 n pos, process_incoming, read_size_hint),
    )

pub process_incoming-zero_size :
    (rmp : Rmp) (p : Protocol) (chunk : Cursor) (more : Bytes)
    → p.msg_size_hint ≡ none
    → rest chunk ≡ rmp.write_u32 0 ++ more
    → process_incoming rmp chunk p ≡ (err zero_size_hint, p)
unfolding process_incoming
process_incoming-zero_size rmp p chunk more e r =
    simp (e, rmp.read_u32-Reads 0 (omega arith) chunk more r, process_incoming)
