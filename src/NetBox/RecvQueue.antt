-- ===== src/NetBox/RecvQueue.antt =====
-- tarantool/src/net_box/recv_queue.rs: bytes from the transport are split into messages, and each is
-- handed to the call that waits for it.
pub mod Split
use tarantool_module.Base.{
  ℕ, zero, suc, ◌+◌, ◌-◌, Bool, true, false, List, [], ◌∷◌, ◌++◌, Option, none, some, ltb, ◌==◌,
  if◌then◌else◌, length, take, drop,
}
use tarantool_module.Base.Maps
use tarantool_module.Io.{Bytes, Cursor, Result, ok, err, ◌>>=◌, out_of_fuel}
use tarantool_module.Msgpack.Iter.{slice}
use tarantool_module.Protocol.Rmp.{Rmp}
use tarantool_module.Protocol.Header.{Header, decode}

-- `cond_map` has the calls that wait in a fiber, `async_consumers` the promises, with whether the
-- promise still lives.
pub record RecvQueue : Type 0 where
  pub is_active : Bool
  pub buffer : Bytes
  pub chunks : List (ℕ × ℕ)
  pub cond_map : List (ℕ × Unit {0})
  pub async_consumers : List (ℕ × Bool)
  pub read_offset : ℕ

-- A message for a waiting fiber, which reads its body from the position behind the header, or for a
-- promise, which gets its body.
pub data Delivery : Type 0 where
  signalled : Header → Cursor → Delivery
  consumed : Header → Bytes → Delivery

-- `stream.read` into the buffer from an offset on: some bytes, which fit.
abbrev pub read_into : Bytes → ℕ → Bytes → Bytes
read_into buffer offset more = take offset buffer ++ (more ++ drop (offset + length more) buffer)

module _ (rmp : Rmp) where
  -- The loop of `pull` from a position on: the chunks, and the range that overflows. The fuel is
  -- the bytes that were read.
  unfoldable pub split : ℕ → ℕ → Cursor → Result (List (ℕ × ℕ) × Option (ℕ × ℕ))
  split zero data_len c = err out_of_fuel
  split (suc fuel) data_len c = do
    (chunk_len, c1) ← rmp.read_u32 c
    let new_offset : ℕ = c1.pos + chunk_len
    elim (ltb data_len new_offset) [
      | true ↦ ok ([], some (c.pos, data_len))
      | false ↦ elim (new_offset == data_len) [
        | true ↦ ok ((c1.pos, new_offset) ∷ [], none)
        | false ↦ do
          (chunks, overflow) ← split fuel data_len (record c { pos = new_offset })
          ok ((c1.pos, new_offset) ∷ chunks, overflow)
      ]
    ]

  -- One chunk: who gets it.
  unfoldable pub dispatch : ℕ × ℕ → RecvQueue → Result (List Delivery × RecvQueue)
  dispatch (start, end) q = do
    (header, c) ← decode rmp (record { bytes = q.buffer; pos = start })
    elim (Maps.get header.sync q.cond_map) [
      | some _ ↦
          ok (signalled header c ∷ [], record q { cond_map = Maps.remove header.sync q.cond_map })
      | none ↦ ok (
        elim (Maps.get header.sync q.async_consumers) [
          | some true ↦ consumed header (slice c.pos end q.buffer) ∷ []
          | _ ↦ []
        ],
        record q { async_consumers = Maps.remove header.sync q.async_consumers },
      )
    ]

  unfoldable pub dispatch_all : List (ℕ × ℕ) → RecvQueue → Result (List Delivery × RecvQueue)
  unfolding dispatch
  dispatch_all [] q = ok ([], q)
  dispatch_all (chunk ∷ chunks) q = do
    (first, q1) ← dispatch chunk q
    (more, q2) ← dispatch_all chunks q1
    ok (first ++ more, q2)

  -- The range that overflows is moved to the start of the buffer.
  unfoldable pub keep_overflow : Option (ℕ × ℕ) → RecvQueue → RecvQueue
  keep_overflow none q = record q { read_offset = 0 }
  keep_overflow (some (start, end)) q =
      if ltb start end
      then record q {
        buffer = slice start end q.buffer ++ drop (end - start) q.buffer;
        read_offset = end - start;
      }
      else record q { read_offset = 0 }

  -- `pull` behind the read of some bytes, which are in the buffer by now.
  unfoldable pub process_data : ℕ → RecvQueue → Result (Bool × List Delivery × RecvQueue)
  unfolding split dispatch_all keep_overflow
  process_data data_len q = do
    (chunks, overflow) ← split data_len data_len (record { bytes = q.buffer; pos = 0 })
    (deliveries, q1) ← dispatch_all chunks (record q { chunks = chunks })
    ok (true, deliveries, keep_overflow overflow q1)

  -- `pull`, when the transport has some bytes; the answer is whether to go on.
  unfoldable pub pull : Bytes → RecvQueue → Result (Bool × List Delivery × RecvQueue)
  unfolding process_data
  pull more q =
      let q1 : RecvQueue = record q { buffer = read_into q.buffer q.read_offset more } in
      if q.is_active
      then (if length more == 0 then ok (false, [], q1) else process_data (length more) q1)
      else ok (false, [], q)
