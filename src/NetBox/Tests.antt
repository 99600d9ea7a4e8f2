-- ===== src/NetBox/Tests.antt =====
-- The theorems on the queues and promises of tarantool/src/net_box at concrete messages.
use tarantool_module.Base.{
  ℕ, ◌+◌, ◌≡◌, refl, true, false, inr, some, [], ◌∷◌, ◌++◌, List, none, drop, length, replicate,
  arith,
}
use tarantool_module.Io.{Bytes, Cursor, ok, at_start}
use tarantool_module.Protocol.Buffer.Laws.{frame}
use tarantool_module.NetBox.RecvQueue.{RecvQueue, pull, consumed, dispatch}
use tarantool_module.NetBox.RecvQueue.Split.{frames, pull-split_frame}
use tarantool_module.Msgpack.Format.{Value, leaf}
use tarantool_module.Msgpack.Format as Format
use tarantool_module.Msgpack.Rmp.{u8}
use tarantool_module.Protocol.Header.{Header}
use tarantool_module.Protocol.Header.Laws.{packet, type, sync, version}
use tarantool_module.NetBox.Promise.{Promise, consume}
use tarantool_module.NetBox.Promise.Kept.{answer, dispatch-consume}
use tarantool_module.Protocol.Api.{ping, encode}
use tarantool_module.Protocol.Codec.{encode_ping}
use tarantool_module.Protocol.Header.{encode_header}
use tarantool_module.Protocol.Outgoing as Outgoing
use tarantool_module.Protocol.Outgoing.{Fits}
use tarantool_module.NetBox.SendQueue.{SendQueue, write, flush_round}
use tarantool_module.NetBox.SendQueue.Laws.{Holds, send_all, flush_round-send_all}
use tarantool_module.Sample.{rmp}

abbrev messages : List Bytes
messages = (7 ∷ 8 ∷ []) ∷ (9 ∷ []) ∷ []

abbrev two_read : Cursor
two_read = at_start (frames rmp messages ++ (0 ∷ 0 ∷ []))

-- The queue once five of the eight bytes of a message have been read.
abbrev half_read : RecvQueue
half_read = record {
  is_active = true;
  buffer = rmp.write_u32 3 ++ replicate 11 0;
  chunks = [];
  cond_map = [];
  async_consumers = [];
  read_offset = 5;
}

pull-split_frame_example :
    (q : RecvQueue) × (pull rmp (1 ∷ 2 ∷ 3 ∷ []) half_read ≡ ok (true, [], q))
    × (q.buffer ≡ frame rmp (1 ∷ 2 ∷ 3 ∷ []) ++ drop 3 (replicate 11 0))
    × (q.chunks ≡ [])
    × (q.read_offset + 5 ≡ 8)
pull-split_frame_example =
    pull-split_frame rmp (1 ∷ 2 ∷ 3 ∷ []) (rmp.write_u32 3) (1 ∷ 2 ∷ 3 ∷ []) (replicate 11 0)
      half_read (omega arith) refl refl refl refl (λ e. cc) (λ e. cc)

abbrev empty : SendQueue
empty = record {
  is_active = true;
  sync = 0;
  front_buffer = at_start [];
  back_buffer = at_start [];
  signalled = false;
  buffer_limit = 100;
}

pinged-Fits : (n : ℕ) → Fits rmp (ping rmp) n
unfolding ping encode encode_ping encode_header
pinged-Fits n = record { written = refl; short = omega arith }

flush_round-send_all_example :
    ((flush_round 0 false (send_all rmp (ping rmp ∷ ping rmp ∷ []) empty)).0
      ≡ write (Outgoing.frames rmp 0 (ping rmp ∷ ping rmp ∷ [])))
    × Holds [] (flush_round 0 false (send_all rmp (ping rmp ∷ ping rmp ∷ []) empty)).1
unfolding ping encode encode_ping encode_header
flush_round-send_all_example =
    flush_round-send_all rmp (ping rmp ∷ ping rmp ∷ []) [] empty 0 false
      (pinged-Fits 0, (pinged-Fits 1, tt)) (record { active = refl; back = refl; front = refl })
      (λ e. cc) (inr refl)

abbrev other_entry : List (ℕ × Value)
other_entry = (0x42, leaf u8 (9 ∷ [])) ∷ []

abbrev reply_head : Bytes
reply_head = packet rmp (type 0 ∷ sync 5 ∷ version 80 ∷ [])

abbrev reply_body : Bytes
reply_body = answer rmp other_entry (leaf u8 (6 ∷ [])) other_entry

-- The promise waits under sync 5, and a message for it has come.
abbrev delivered : RecvQueue
delivered = record {
  is_active = true;
  buffer = 0 ∷ (reply_head ++ (reply_body ++ (1 ∷ [])));
  chunks = [];
  cond_map = [];
  async_consumers = (5, true) ∷ [];
  read_offset = 0;
}

abbrev waiting : Promise Bytes
waiting = record { result = none; signals = 0; connected = true }

abbrev reply_header : Header
reply_header = record { sync = 5; iproto_type = 0; error_code = 0; schema_version = 80 }

dispatch-consume_example :
    (dispatch rmp (1, 1 + length reply_head + length reply_body) delivered
      ≡ ok (consumed reply_header reply_body ∷ [], record delivered { async_consumers = [] }))
    × (consume rmp reply_header (λ bs. ok bs) reply_body waiting ≡ record waiting {
      result = some (ok (Format.encode rmp.to_u8 (leaf u8 (6 ∷ []))));
      signals = 1;
    })
dispatch-consume_example =
    dispatch-consume rmp (λ bs. ok bs) delivered waiting 1 0 5 80 other_entry other_entry
      (leaf u8 (6 ∷ [])) (1 ∷ []) (omega arith) (omega arith) (omega arith) (omega arith)
      (omega arith) (omega arith) (omega arith) refl refl refl
