-- ===== src/Msgpack/Rmp.antt =====
-- `rmp::Marker`, as the matches of tarantool/src/msgpack.rs name its variants, and the reading of a
-- marker byte, which the crate `rmp` provides.
use tarantool_module.Base.{ℕ, ◌^◌, ◌<◌, ◌≡◌, [], ◌∷◌, ◌++◌, length}
use tarantool_module.Io.{Bytes, Cursor, Result, ok, err, unexpected_eof, rest, advance}

pub data Marker : Type 0 where
  fix_pos fix_neg : ℕ → Marker
  null true false : Marker
  u8 u16 u32 u64 i8 i16 i32 i64 f32 f64 : Marker
  fix_str : ℕ → Marker
  str8 str16 str32 bin8 bin16 bin32 : Marker
  fix_array : ℕ → Marker
  array16 array32 : Marker
  fix_map : ℕ → Marker
  map16 map32 : Marker
  fix_ext1 fix_ext2 fix_ext4 fix_ext8 fix_ext16 ext8 ext16 ext32 : Marker
  reserved : Marker

-- The values that fit a marker's own bits; a negative number counts by its low five bits.
abbrev pub IsMarker : Marker → Type 0
IsMarker (fix_pos n) = n < 128
IsMarker (fix_neg n) = n < 32
IsMarker (fix_str n) = n < 32
IsMarker (fix_array n) = n < 16
IsMarker (fix_map n) = n < 16
IsMarker _ = Unit {0}

-- What the library relies on: `Marker::from_u8`, `Marker::to_u8`, and `rmp::decode::read_marker`,
-- which reads one byte.
pub record Markers : Type 0 where
  pub from_u8 : ℕ → Marker
  pub to_u8 : Marker → ℕ
  pub read_marker : Cursor → Result (Marker × Cursor)
  pub from_u8-to_u8 : (m : Marker) → IsMarker m → from_u8 (to_u8 m) ≡ m
  pub read_marker_end : (c : Cursor) → rest c ≡ [] → read_marker c ≡ err unexpected_eof
  pub read_marker_byte :
      (c : Cursor) (b : ℕ) (bs : Bytes)
      → rest c ≡ b ∷ bs
      → read_marker c ≡ ok (from_u8 b, advance 1 c)

-- The header of an array: `write_data_u32`, which writes four bytes, and
-- `rmp::decode::read_array_len`, which reads back a header of the 32-bit form.
pub record Arrays : Type 0 where
  pub markers : Markers
  pub open markers use *
  pub write_data_u32 : ℕ → Bytes
  pub read_array_len : Cursor → Result (ℕ × Cursor)
  pub length-write_data_u32 : (n : ℕ) → length (write_data_u32 n) ≡ 4
  pub read_array_len-array32 :
      (c : Cursor) (n : ℕ) (more : Bytes)
      → n < 2 ^ 32
      → rest c ≡ to_u8 array32 ∷ (write_data_u32 n ++ more)
      → read_array_len c ≡ ok (n, advance 5 c)
