-- ===== src/NetBox/SendQueue.antt =====
-- tarantool/src/net_box/send_queue.rs: requests are collected in one buffer while the other one is
-- written to the transport.
pub mod Laws
use tarantool_module.Base.{ℕ, Bool, true, false, [], leb, ltb, ◌==◌, if◌then◌else◌, ◌&&◌}
use tarantool_module.Io.{Bytes, Cursor, Result, ok, err, at_start}
use tarantool_module.Protocol.Rmp.{Rmp}
use tarantool_module.Protocol.Api.{Request, encode}
use tarantool_module.Protocol.{next_index}
use tarantool_module.Protocol.Buffer.{write_to_buffer}

-- `swapped` tells that the worker that writes was signalled.
pub record SendQueue : Type 0 where
  pub is_active : Bool
  pub sync : ℕ
  pub front_buffer : Cursor
  pub back_buffer : Cursor
  pub signalled : Bool
  pub buffer_limit : ℕ

unfoldable pub new : ℕ → SendQueue
new buffer_limit = record {
  is_active = true;
  sync = 0;
  front_buffer = at_start [];
  back_buffer = at_start [];
  signalled = false;
  buffer_limit = buffer_limit;
}

-- `next_sync`
unfoldable pub next_sync : SendQueue → ℕ × SendQueue
unfolding next_index
next_sync q = (q.sync, record q { sync = next_index q.sync })

-- `send` behind the write. After an error the position stays, and the buffer has what was written.
unfoldable pub after_write : ℕ → Result (Unit {0}) × Cursor → SendQueue → Result ℕ × SendQueue
after_write sync (err e, buf) q =
    (err e, record q { back_buffer = record q.back_buffer { bytes = buf.bytes } })
after_write sync (ok _, buf) q = (
  ok sync,
  record q {
    back_buffer = buf;
    signalled = (if q.back_buffer.pos == 0 then true else q.signalled);
  },
)

unfoldable pub send : {R : Type 0} → Rmp → Request R → SendQueue → Result ℕ × SendQueue
unfolding next_sync after_write
send rmp request q =
    let (sync, q1) = next_sync q in
    let q2 : SendQueue = record q1 {
      signalled = (if leb q.buffer_limit q.back_buffer.pos then true else q.signalled);
    } in
    after_write sync (write_to_buffer rmp (encode rmp request sync) q2.back_buffer) q2

-- What a round of `flush_to_stream` comes to.
pub data Flush : Type 0 where
  inactive wait_data reschedule : Flush
  write : Bytes → Flush

-- A round of `flush_to_stream`: the bytes that were there in the last round, and whether the flush
-- interval has not passed yet. What is written is the whole front buffer, which is then cleared.
unfoldable pub flush_round : ℕ → Bool → SendQueue → Flush × SendQueue
flush_round prev_data_size in_time q =
    if q.is_active
    then (if q.back_buffer.pos == 0
        then (wait_data, q)
        else (if ltb prev_data_size q.back_buffer.pos && in_time then (reschedule, q) else (
          write q.back_buffer.bytes,
          record q { back_buffer = q.front_buffer; front_buffer = at_start [] },
        )))
    else (inactive, q)

pub close : SendQueue → SendQueue
close q = record q { is_active = false; signalled = true }
