-- ===== src/Protocol/Buffer/Laws.antt =====
-- What `write_to_buffer` of tarantool/src/network/protocol/mod.rs leaves in the buffer.
use mathlib.Core.List.{append_assoc}
use mathlib.Core.Path.{ap₂}
use native.Mathlib.Nat.{mod-eq_of_lt}
use tarantool_module.Base.{
  ◌-◌, ◌%◌, ◌^◌, ◌<◌, ◌≡◌, refl, sym, ap, ◌∙◌, ◌++◌, arith, length, length-append,
}
use tarantool_module.Io.{Bytes, Cursor, Error, ok, err, write_all}
use tarantool_module.Io.Writes.{bytes-write_all_append, bytes-write_all_over, pos-write_all}
use tarantool_module.Msgpack.Writer.{Serialized}
use tarantool_module.Protocol.Rmp.{Rmp}
use tarantool_module.Protocol.Buffer.{write_to_buffer}

abbrev pub frame : Rmp → Bytes → Bytes
frame rmp payload = rmp.write_u32 (length payload) ++ payload

abbrev pub at_end : Bytes → Cursor
at_end buf = record { bytes = buf; pos = length buf }

module _ (rmp : Rmp) (buf payload : Bytes) where
  placed : Cursor
  placed = write_all (rmp.write_u32 0) (at_end buf)

  written : Cursor
  unfolding placed
  written = write_all payload placed

  bytes-written : written.bytes ≡ buf ++ (rmp.write_u32 0 ++ payload)
  unfolding written
  bytes-written =
      bytes-write_all_append payload (buf ++ rmp.write_u32 0) placed
        (bytes-write_all_append (rmp.write_u32 0) buf (at_end buf) refl refl)
        (pos-write_all (rmp.write_u32 0) (at_end buf) ∙ sym (length-append buf (rmp.write_u32 0)))
      ∙ append_assoc buf (rmp.write_u32 0) payload

  size : written.pos - placed.pos ≡ length payload
  unfolding written
  size = omega (arith, pos-write_all payload placed)

  pos-written : written.pos ≡ length (buf ++ frame rmp payload)
  unfolding written placed
  pos-written = omega (
    arith,
    pos-write_all payload placed,
    pos-write_all (rmp.write_u32 0) (at_end buf),
    length-append buf (frame rmp payload),
    length-append (rmp.write_u32 (length payload)) payload,
    rmp.length-write_u32 0,
    rmp.length-write_u32 (length payload),
  )

  patched : Cursor
  unfolding written
  patched =
      write_all (rmp.write_u32 ((written.pos - placed.pos) % 2 ^ 32))
        (record written { pos = length buf })

  bytes-patched : length payload < 2 ^ 32 → patched.bytes ≡ buf ++ frame rmp payload
  unfolding patched
  bytes-patched h =
      bytes-write_all_over (rmp.write_u32 ((written.pos - placed.pos) % 2 ^ 32)) buf
        (rmp.write_u32 0) payload (record written { pos = length buf }) bytes-written refl
        (omega (
          arith,
          rmp.length-write_u32 0,
          rmp.length-write_u32 ((written.pos - placed.pos) % 2 ^ 32),
        ))
      ∙ ap (λ n. buf ++ (rmp.write_u32 n ++ payload)) (ap (λ n. n % 2 ^ 32) size ∙ mod-eq_of_lt h)

module _ (rmp : Rmp) (buf : Bytes) (request : Serialized) where
  -- A request that serialises is appended to the buffer as one frame, its length in the place that
  -- was kept for it, and the buffer's own bytes stay. The payload is shorter than 2 ^ 32.
  pub write_to_buffer-frame :
      request.outcome ≡ ok tt
      → length request.written < 2 ^ 32
      → (c : Cursor) × (write_to_buffer rmp request (at_end buf) ≡ (ok tt, c))
        × (c.bytes ≡ buf ++ frame rmp request.written)
  unfolding write_to_buffer patched
  write_to_buffer-frame done h = (
    record (patched rmp buf request.written) { pos = (written rmp buf request.written).pos },
    rw (done, write_to_buffer),
    bytes-patched rmp buf request.written h,
  )

  -- The cursor then stands at the end of the buffer.
  pub write_to_buffer-at_end :
      request.outcome ≡ ok tt
      → length request.written < 2 ^ 32
      → write_to_buffer rmp request (at_end buf)
        ≡ (ok tt, at_end (buf ++ frame rmp request.written))
  unfolding write_to_buffer patched
  write_to_buffer-at_end done h =
      rw (done, write_to_buffer)
        (ap₂ (λ bytes pos. (ok tt, record { bytes = bytes; pos = pos }))
          (bytes-patched rmp buf request.written h) (pos-written rmp buf request.written))

  -- A request whose serialisation fails leaves the placeholder and the part that was written.
  pub write_to_buffer-failed :
      (e : Error)
      → request.outcome ≡ err e
      → (c : Cursor) × (write_to_buffer rmp request (at_end buf) ≡ (err e, c))
        × (c.bytes ≡ buf ++ (rmp.write_u32 0 ++ request.written))
  unfolding write_to_buffer written
  write_to_buffer-failed e failed = (
    written rmp buf request.written,
    rw (failed, write_to_buffer),
    bytes-written rmp buf request.written,
  )
