-- ===== src/Msgpack.antt =====
-- tarantool/src/msgpack.rs: skipping over MessagePack values, iterating over them, writing arrays.
pub mod Rmp
pub mod Format
pub mod Skip
pub mod Total
pub mod Iter
pub mod Writer
pub mod Preserve
mod Tests
use tarantool_module.Base.{
  ℕ, zero, suc, ◌+◌, ◌*◌, ◌%◌, ◌^◌, ◌≡◌, length, ltb, if◌then◌else◌, List, [], ◌∷◌,
}
use tarantool_module.Io.{
  Bytes, Cursor, Result, ok, err, ◌>>=◌, invalid_data, type_mismatch, out_of_fuel, advance,
  read_exact, from_be,
}
use Rmp.{
  Marker, Markers, fix_pos, fix_neg, null, u8, u16, u32, u64, i8, i16, i32, i64, f32, f64, fix_str,
  str8, str16, str32, bin8, bin16, bin32, fix_array, array16, array32, fix_map, map16, map32,
  fix_ext1, fix_ext2, fix_ext4, fix_ext8, fix_ext16, ext8, ext16, ext32, reserved,
}

-- `read_be!` of a `w`-byte number
pub read_be : ℕ → Cursor → Result (ℕ × Cursor)
read_be w c = do (bs, c') ← read_exact w c; ok (from_be 0 bs, c')

-- `for _ in 0..n { skip_value(cur)?; }`
pub skip_times : (Cursor → Result Cursor) → ℕ → Cursor → Result Cursor
skip_times skip zero c = ok c
skip_times skip (suc n) c = do c' ← skip c; skip_times skip n c'

skip_len : ℕ → ℕ → Cursor → Result Cursor
unfolding read_be
skip_len w extra c = do (len, c') ← read_be w c; ok (advance (len + extra) c')

-- The number of elements in `w` bytes; `times` is 2 for a map. The product wraps at the width.
skip_items : (Cursor → Result Cursor) → ℕ → ℕ → Cursor → Result Cursor
unfolding read_be skip_times
skip_items skip w times c = do
  (len, c') ← read_be w c
  skip_times skip (len * times % 2 ^ (8 * w)) c'

-- The match of `skip_value_inner`.
pub skip_payload : (Cursor → Result Cursor) → Marker → Cursor → Result Cursor
unfolding skip_len skip_items
skip_payload skip (fix_pos _) c = ok c
skip_payload skip (fix_neg _) c = ok c
skip_payload skip null c = ok c
skip_payload skip Marker.true c = ok c
skip_payload skip Marker.false c = ok c
skip_payload skip u8 c = ok (advance 1 c)
skip_payload skip i8 c = ok (advance 1 c)
skip_payload skip u16 c = ok (advance 2 c)
skip_payload skip i16 c = ok (advance 2 c)
skip_payload skip u32 c = ok (advance 4 c)
skip_payload skip i32 c = ok (advance 4 c)
skip_payload skip f32 c = ok (advance 4 c)
skip_payload skip u64 c = ok (advance 8 c)
skip_payload skip i64 c = ok (advance 8 c)
skip_payload skip f64 c = ok (advance 8 c)
skip_payload skip (fix_str len) c = ok (advance len c)
skip_payload skip str8 c = skip_len 1 0 c
skip_payload skip bin8 c = skip_len 1 0 c
skip_payload skip str16 c = skip_len 2 0 c
skip_payload skip bin16 c = skip_len 2 0 c
skip_payload skip str32 c = skip_len 4 0 c
skip_payload skip bin32 c = skip_len 4 0 c
skip_payload skip (fix_array len) c = skip_times skip len c
skip_payload skip array16 c = skip_items skip 2 1 c
skip_payload skip array32 c = skip_items skip 4 1 c
skip_payload skip (fix_map len) c = skip_times skip (len * 2 % 2 ^ 8) c
skip_payload skip map16 c = skip_items skip 2 2 c
skip_payload skip map32 c = skip_items skip 4 2 c
skip_payload skip fix_ext1 c = ok (advance 2 c)
skip_payload skip fix_ext2 c = ok (advance 3 c)
skip_payload skip fix_ext4 c = ok (advance 5 c)
skip_payload skip fix_ext8 c = ok (advance 9 c)
skip_payload skip fix_ext16 c = ok (advance 17 c)
skip_payload skip ext8 c = skip_len 1 1 c
skip_payload skip ext16 c = skip_len 2 1 c
skip_payload skip ext32 c = skip_len 4 1 c
skip_payload skip reserved c = err type_mismatch

-- The check after the match: a seek may have passed the end.
pub check_end : Cursor → Result Cursor
check_end c = if ltb (length c.bytes) c.pos then err invalid_data else ok c

module _ (rmp : Markers) where
  pub skip_value_inner : (Cursor → Result Cursor) → Cursor → Result Cursor
  skip_value_inner skip c = do (m, c') ← rmp.read_marker c; skip_payload skip m c'

  -- The fuel bounds the depth of the recursion.
  pub skip_fuel : ℕ → Cursor → Result Cursor
  unfolding skip_value_inner check_end
  skip_fuel zero c = err out_of_fuel
  skip_fuel (suc fuel) c = do c' ← skip_value_inner (skip_fuel fuel) c; check_end c'

  -- `skip_value`: a value is no deeper than it has bytes.
  pub skip_value : Cursor → Result Cursor
  skip_value c = skip_fuel (suc (length c.bytes)) c
