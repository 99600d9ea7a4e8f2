-- ===== src/Sample.antt =====
-- Concrete functions for the parameters of the models, which stand for crates outside the
-- repository: MessagePack headers in their widest form, and stand-ins for digests and texts. The
-- witnesses use them.
use tarantool_module.Base.{
  ℕ, suc, ◌+◌, ◌-◌, ◌^◌, ◌<◌, ◌≡◌, refl, ap, List, [], ◌∷◌, ◌++◌, some, true, arith, length, take,
  drop, replicate, get_or, ltb, ◌==◌, if◌then◌else◌, ==_self,
}
use tarantool_module.Io.{
  Bytes, Cursor, Result, ok, err, ◌>>=◌, unexpected_eof, type_mismatch, rest, advance, read_exact,
  from_be,
}
use tarantool_module.Io.Reads.{read_exact_prefix}
use tarantool_module.Msgpack.Format.{be, length-be, from_be-be}
use tarantool_module.Msgpack.Rmp.{
  Marker, Markers, Arrays, IsMarker, fix_pos, fix_neg, null, u8, u16, u32, u64, i8, i16, i32, i64,
  f32, f64, fix_str, str8, str16, str32, bin8, bin16, bin32, fix_array, array16, array32, fix_map,
  map16, map32, fix_ext1, fix_ext2, fix_ext4, fix_ext8, fix_ext16, ext8, ext16, ext32, reserved,
}
use tarantool_module.Protocol.Rmp.{Rmp, Reads}

-- The markers from 0xc0 to 0xdf.
abbrev pub table : List Marker
table =
    null ∷ reserved ∷ Marker.false ∷ Marker.true ∷ bin8 ∷ bin16 ∷ bin32 ∷ ext8 ∷ ext16 ∷ ext32 ∷ f32
    ∷ f64 ∷ u8 ∷ u16 ∷ u32 ∷ u64 ∷ i8 ∷ i16 ∷ i32 ∷ i64 ∷ fix_ext1 ∷ fix_ext2 ∷ fix_ext4 ∷ fix_ext8
    ∷ fix_ext16 ∷ str8 ∷ str16 ∷ str32 ∷ array16 ∷ array32 ∷ map16 ∷ map32 ∷ []

abbrev pub from_u8 : ℕ → Marker
from_u8 b =
    if ltb b 0x80
    then fix_pos b
    else (if ltb b 0x90
        then fix_map (b - 0x80)
        else (if ltb b 0xa0
            then fix_array (b - 0x90)
            else (if ltb b 0xc0
                then fix_str (b - 0xa0)
                else (if ltb b 0xe0
                    then get_or table (b - 0xc0) reserved
                    else fix_neg (b - 0xe0)))))

abbrev pub to_u8 : Marker → ℕ
to_u8 (fix_pos n) = n
to_u8 (fix_neg n) = 0xe0 + n
to_u8 (fix_str n) = 0xa0 + n
to_u8 (fix_array n) = 0x90 + n
to_u8 (fix_map n) = 0x80 + n
to_u8 null = 0xc0
to_u8 reserved = 0xc1
to_u8 Marker.false = 0xc2
to_u8 Marker.true = 0xc3
to_u8 bin8 = 0xc4
to_u8 bin16 = 0xc5
to_u8 bin32 = 0xc6
to_u8 ext8 = 0xc7
to_u8 ext16 = 0xc8
to_u8 ext32 = 0xc9
to_u8 f32 = 0xca
to_u8 f64 = 0xcb
to_u8 u8 = 0xcc
to_u8 u16 = 0xcd
to_u8 u32 = 0xce
to_u8 u64 = 0xcf
to_u8 i8 = 0xd0
to_u8 i16 = 0xd1
to_u8 i32 = 0xd2
to_u8 i64 = 0xd3
to_u8 fix_ext1 = 0xd4
to_u8 fix_ext2 = 0xd5
to_u8 fix_ext4 = 0xd6
to_u8 fix_ext8 = 0xd7
to_u8 fix_ext16 = 0xd8
to_u8 str8 = 0xd9
to_u8 str16 = 0xda
to_u8 str32 = 0xdb
to_u8 array16 = 0xdc
to_u8 array32 = 0xdd
to_u8 map16 = 0xde
to_u8 map32 = 0xdf

pub from_u8-to_u8 : (m : Marker) → IsMarker m → from_u8 (to_u8 m) ≡ m
from_u8-to_u8 (fix_pos n) h = ground arith
from_u8-to_u8 (fix_neg n) h = ground arith
from_u8-to_u8 (fix_str n) h = ground arith
from_u8-to_u8 (fix_array n) h = ground arith
from_u8-to_u8 (fix_map n) h = ground arith
from_u8-to_u8 null h = refl
from_u8-to_u8 m h = refl

abbrev read_byte {ℓ} : {A : Type ℓ} → (ℕ → A) → Bytes → Cursor → Result (A × Cursor)
read_byte f [] c = err unexpected_eof
read_byte f (b ∷ _) c = ok (f b, advance 1 c)

abbrev read_marker : Cursor → Result (Marker × Cursor)
read_marker c = read_byte from_u8 (rest c) c

abbrev pub markers : Markers
markers = record {
  from_u8 = from_u8;
  to_u8 = to_u8;
  read_marker = read_marker;
  from_u8-to_u8 = from_u8-to_u8;
  read_marker_end = λ c e. ap (λ bs. read_byte from_u8 bs c) e;
  read_marker_byte = λ c b bs e. ap (λ t. read_byte from_u8 t c) e;
}

-- A marker byte and a number in `w` bytes.
abbrev pub write_be : ℕ → ℕ → ℕ → Bytes
write_be m w n = m ∷ be w n

unfoldable pub read_be : ℕ → ℕ → Cursor → Result (ℕ × Cursor)
unfolding read_exact from_be
read_be m w c = do
  (bs, c') ← read_exact (suc w) c
  if get_or bs 0 0 == m then ok (from_be 0 (drop 1 bs), c') else err type_mismatch

pub read_be-Reads : (m w n : ℕ) → n < 256 ^ w → Reads (write_be m w) (read_be m w) n
unfolding read_be
read_be-Reads m w n h c more e =
    let step : read_exact (suc w) c ≡ ok (write_be m w n, advance (suc w) c) =
      rw (length-be w n) at (read_exact_prefix c (write_be m w n) more e) in
    rw (step) (rw (==_self m, from_be-be w n h, length-be w n))

abbrev pub arrays : Arrays
arrays = record {
  markers = markers;
  write_data_u32 = be 4;
  read_array_len = read_be 0xdd 4;
  length-write_data_u32 = length-be 4;
  read_array_len-array32 = λ c n more h e. read_be-Reads 0xdd 4 n h c more e;
}

abbrev identity : ℕ → ℕ
identity n = n

abbrev pub rmp : Rmp
rmp = record {
  arrays = arrays;
  write_u32 = write_be 0xce 4;
  write_pfix = λ n. n ∷ [];
  write_uint = write_be 0xcf 8;
  write_map_len = write_be 0xdf 4;
  write_array_len = write_be 0xdd 4;
  write_str_len = write_be 0xdb 4;
  write_str = λ s. write_be 0xdb 4 (length s) ++ s;
  read_u32 = read_be 0xce 4;
  read_pfix = λ c. read_byte identity (rest c) c;
  read_int_u32 = λ c. read_be 0xcf 8 c;
  read_int_u64 = read_be 0xcf 8;
  read_map_len = read_be 0xdf 4;
  read_str_len = read_be 0xdb 4;
  read_fields = λ c. (ok [], c);
  is_utf8 = λ bs. true;
  base64_decode = λ bs. some bs;
  sha1 = λ bs. take 20 (bs ++ replicate 20 0);
  length-write_u32 = λ n. ap suc (length-be 4 n);
  read_u32-Reads = read_be-Reads 0xce 4;
  read_pfix-Reads = λ n h c more e. ap (λ t. read_byte identity t c) e;
  read_int_u32-Reads = λ n h. read_be-Reads 0xcf 8 n (omega arith);
  read_int_u64-Reads = read_be-Reads 0xcf 8;
  read_map_len-Reads = read_be-Reads 0xdf 4;
}
