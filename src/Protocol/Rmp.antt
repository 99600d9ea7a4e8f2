-- ===== src/Protocol/Rmp.antt =====
-- What the protocol relies on from the crates `rmp`, `rmp_serde`, `base64` and `sha1`: the writers and readers of
-- MessagePack numbers, strings and headers. A writer into a memory buffer does not fail, so it is
-- given by the bytes that it writes.
use tarantool_module.Base.{ℕ, ◌^◌, ◌<◌, ◌≡◌, Bool, Option, ◌++◌, length}
use tarantool_module.Io.{Bytes, Cursor, Result, ok, rest, advance}
use tarantool_module.Msgpack.Rmp.{Arrays}

-- A reader takes back what the writer wrote, whatever follows.
abbrev pub Reads : (ℕ → Bytes) → (Cursor → Result (ℕ × Cursor)) → ℕ → Type 0
Reads write read n =
    (c : Cursor) (more : Bytes)
    → rest c ≡ write n ++ more
    → read c ≡ ok (n, advance (length (write n)) c)

pub record Rmp : Type 0 where
  pub arrays : Arrays
  pub open arrays use *
  -- `write_u32` writes a marker and four bytes, `write_pfix` one byte.
  pub write_u32 : ℕ → Bytes
  pub write_pfix : ℕ → Bytes
  pub write_uint : ℕ → Bytes
  pub write_map_len : ℕ → Bytes
  pub write_array_len : ℕ → Bytes
  pub write_str_len : ℕ → Bytes
  pub write_str : Bytes → Bytes
  pub read_u32 : Cursor → Result (ℕ × Cursor)
  pub read_pfix : Cursor → Result (ℕ × Cursor)
  -- `read_int`, at `u32` and `u64`: a value that does not fit is an error.
  pub read_int_u32 : Cursor → Result (ℕ × Cursor)
  pub read_int_u64 : Cursor → Result (ℕ × Cursor)
  pub read_map_len : Cursor → Result (ℕ × Cursor)
  -- `read_str_len`, and the reading of the type-specific fields of an error by `rmp_serde`.
  pub read_str_len : Cursor → Result (ℕ × Cursor)
  pub read_fields : Cursor → Result Bytes × Cursor
  -- `String::from_utf8`: whether the bytes are a text.
  pub is_utf8 : Bytes → Bool
  -- `base64::decode` and `Sha1`.
  pub base64_decode : Bytes → Option Bytes
  pub sha1 : Bytes → Bytes
  pub length-write_u32 : (n : ℕ) → length (write_u32 n) ≡ 5
  pub read_u32-Reads : (n : ℕ) → n < 2 ^ 32 → Reads write_u32 read_u32 n
  pub read_pfix-Reads : (n : ℕ) → n < 128 → Reads write_pfix read_pfix n
  pub read_int_u32-Reads : (n : ℕ) → n < 2 ^ 32 → Reads write_uint read_int_u32 n
  pub read_int_u64-Reads : (n : ℕ) → n < 2 ^ 64 → Reads write_uint read_int_u64 n
  pub read_map_len-Reads : (n : ℕ) → n < 2 ^ 32 → Reads write_map_len read_map_len n
