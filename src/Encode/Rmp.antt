-- ===== src/Encode/Rmp.antt =====
-- What the implementations rely on from the crate `rmp`: writers into a vector, given by the bytes
-- that they write, and readers of a slice.
use tarantool_module.Base.{
  ℕ, ◌≤◌, ◌⊎◌, length, drop, ◌-◌, ◌^◌, ◌<◌, ◌≡◌, Bool, true, false, List, [], ◌∷◌, ◌++◌, ◌==◌,
}
use tarantool_module.Io.{Bytes}
use tarantool_module.Msgpack.Rmp.{Marker, Markers, null, fix_str, str8, str16, str32}
use tarantool_module.Msgpack.Format.{be}
use tarantool_module.Encode.Reader.{ok, err, Reader}

pub data ℤ : Type 0 where
  pos negsuc : ℕ → ℤ

-- `ValueReadError`, and `out_of_range` of `NumValueReadError`, which has the others too.
pub data ReadError : Type 0 where
  type_mismatch : Marker → ReadError
  invalid_data_read invalid_marker_read out_of_range : ReadError

-- The width of an integer in bits
pub data Width : Type 0 where
  w8 w16 w32 w64 : Width

abbrev pub bits : Width → ℕ
bits w8 = 8
bits w16 = 16
bits w32 = 32
bits w64 = 64

abbrev pub IsUint : Width → ℕ → Type 0
IsUint w n = n < 2 ^ bits w

abbrev pub IsSint : Width → ℤ → Type 0
IsSint w (pos n) = n < 2 ^ (bits w - 1)
IsSint w (negsuc n) = n < 2 ^ (bits w - 1)

-- A Unicode scalar value, which `char` holds
abbrev pub IsChar : ℕ → Type 0
IsChar c = (c < 0xd800) ⊎ ((0xe000 ≤ c) × (c < 0x110000))

abbrev pub IsLen : ℕ → Type 0
IsLen n = n < 2 ^ 32

-- `MARKER_NULL`
abbrev pub marker_null : ℕ
marker_null = 0xc0

-- Whether the slice begins with a nil: `!r.is_empty() && r[0] == MARKER_NULL`
abbrev pub is_null : Bytes → Bool
is_null [] = false
is_null (b ∷ r) = b == marker_null

-- A writer and the reader of the same kind of value: the reader reads what the writer wrote,
-- whatever follows; the writer writes a marker at least, and never a nil; and the reader takes a nil's marker and refuses it.
pub record Form (A : Type 0) (InRange : A → Type 0) (write : A → Bytes) : Type 0 where
  pub read : Reader ReadError A
  pub read-write : (a : A) (more : Bytes) → InRange a → read (write a ++ more) ≡ (ok a, more)
  pub write_marker : (a : A) → 0 < length (write a)
  pub write-not_null : (a : A) (more : Bytes) → InRange a → is_null (write a ++ more) ≡ false
  pub read_null : (more : Bytes) → read (marker_null ∷ more) ≡ (err (type_mismatch null), more)

-- The header of a string, of the shortest form that holds its length
abbrev pub IsStrHeader : (Marker → ℕ) → ℕ → Marker → Bytes → Type 0
IsStrHeader to_u8 n (fix_str k) bs = (k ≡ n) × (n < 32) × (bs ≡ to_u8 (fix_str n) ∷ [])
IsStrHeader to_u8 n str8 bs = (n < 2 ^ 8) × (bs ≡ to_u8 str8 ∷ be 1 n)
IsStrHeader to_u8 n str16 bs = (n < 2 ^ 16) × (bs ≡ to_u8 str16 ∷ be 2 n)
IsStrHeader to_u8 n str32 bs = bs ≡ to_u8 str32 ∷ be 4 n
IsStrHeader to_u8 n _ bs = ⊥

pub record Codec : Type 0 where
  pub markers : Markers
  pub open markers use *
  pub write_bool : Bool → Bytes
  pub write_uint : ℕ → Bytes
  pub write_sint : ℤ → Bytes
  pub write_array_len : ℕ → Bytes
  pub write_map_len : ℕ → Bytes
  pub write_str_len : ℕ → Bytes
  pub bool : Form Bool (λ b. Unit {0}) write_bool
  pub uint : (w : Width) → Form ℕ (IsUint w) write_uint
  pub sint : (w : Width) → Form ℤ (IsSint w) write_sint
  -- A float is given by its bits.
  pub write_f32 : ℕ → Bytes
  pub write_f64 : ℕ → Bytes
  pub float32 : Form ℕ (IsUint w32) write_f32
  pub float64 : Form ℕ (IsUint w64) write_f64
  pub array_len : Form ℕ IsLen write_array_len
  pub map_len : Form ℕ IsLen write_map_len
  pub str_len : Form ℕ IsLen write_str_len
  -- `write_nil` writes the marker alone.
  pub read_nil : Reader ReadError (Unit {0})
  pub read_nil-null : (more : Bytes) → read_nil (marker_null ∷ more) ≡ (ok tt, more)
  -- Anything else is an error behind the marker.
  pub read_nil-not_null :
      (r : Bytes) → is_null r ≡ false → (e : ReadError) × (read_nil r ≡ (err e, drop 1 r))
  pub str_header : ℕ → Marker
  pub str_header-IsStrHeader :
      (n : ℕ) → IsLen n → IsStrHeader to_u8 n (str_header n) (write_str_len n)
  -- `String::from_utf8`: whether the bytes are a text.
  pub is_utf8 : Bytes → Bool
  -- `char::encode_utf8`, and `str::chars` on bytes that are a text
  pub encode_utf8 : ℕ → Bytes
  pub chars : Bytes → List ℕ
  pub chars-encode_utf8 :
      (c : ℕ)
      → IsChar c
      → (is_utf8 (encode_utf8 c) ≡ true)
        × (chars (encode_utf8 c) ≡ c ∷ [])
        × (0 < length (encode_utf8 c))
        × (length (encode_utf8 c) ≤ 4)
