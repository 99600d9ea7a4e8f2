-- ===== src/Protocol/Buffer.antt =====
-- `write_to_buffer` of tarantool/src/network/protocol/mod.rs: a frame is its payload behind the
-- payload's length.
pub mod Laws
use tarantool_module.Base.{ℕ, ◌-◌, ◌%◌, ◌^◌, ◌++◌}
use tarantool_module.Io.{Bytes, Cursor, Result, ok, err, write_all}
use tarantool_module.Msgpack.Writer.{Serialized}
use tarantool_module.Protocol.Rmp.{Rmp}

-- The length is cast to `u32`. After an error the cursor has what was written so far.
unfoldable pub write_to_buffer : Rmp → Serialized → Cursor → Result (Unit {0}) × Cursor
write_to_buffer rmp request c =
    let placed = write_all (rmp.write_u32 0) c in
    let written = write_all request.written placed in
    let size = (written.pos - placed.pos) % 2 ^ 32 in
    let patched = write_all (rmp.write_u32 size) (record written { pos = c.pos }) in
    elim request.outcome [
      | ok _ ↦ (ok tt, record patched { pos = written.pos })
      | err e ↦ (err e, written)
    ]
