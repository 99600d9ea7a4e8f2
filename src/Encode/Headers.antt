-- ===== src/Encode/Headers.antt =====
-- Headers of encodings, read back, and when they refuse.
use mathlib.Core.List.{append_assoc}
use tarantool_module.Base.{
  ℕ, ◌%◌, ◌^◌, ◌<◌, ◌≡◌, ◌≢◌, eq→==, refl, ap, Bool, true, false, [], ◌∷◌, ◌++◌, Option, none, some,
  length, arith, take-append_length, drop-append_length,
}
use tarantool_module.Io.{Bytes}
use tarantool_module.Encode.Reader.{ok, map_err}
use tarantool_module.Encode.Rmp.{Codec, IsLen, IsChar, is_null}
use tarantool_module.Encode.Errors.{from_vre}
use tarantool_module.Encode.Std.{write_str}
use tarantool_module.Encode.Derive.{
  try_header, encode_header, decode_header, encode_array_header, decode_array_header,
  encode_variant_header, decode_variant_header,
}
use tarantool_module.Encode.Types.{Slots, no_slots, slot, optional_slot, at_end}
use tarantool_module.Encode.Fits.{is_none, leb_append}

pub at_end-none : (ss : Slots) (r : Bytes) → 0 < length r → at_end ss r ≡ none
at_end-none no_slots r h = refl
at_end-none (slot t ss) r h = refl
at_end-none (optional_slot t no_slots) [] h = absurd (omega (arith, h))
at_end-none (optional_slot t no_slots) (b ∷ r) h = refl
at_end-none (optional_slot t (slot u ss)) r h = refl
at_end-none (optional_slot t (optional_slot u ss)) r h = refl

pub is_none-false : (a : Option ℕ) → a ≢ none → is_none a ≡ false
is_none-false none h = absurd (h refl)
is_none-false (some n) h = refl

pub len_mod : (n : ℕ) → n % 2 ^ 32 < 2 ^ 32
len_mod n = omega arith

pub len_id : (n : ℕ) → IsLen n → n % 2 ^ 32 ≡ n
len_id n h = omega (arith, h)

module _ (codec : Codec) where
  pub header-not_null :
      (as_map : Bool) (n : ℕ) (more : Bytes)
      → is_null (encode_header codec as_map n ++ more) ≡ false
  header-not_null true n more = codec.map_len.write-not_null (n % 2 ^ 32) more (len_mod n)
  header-not_null false n more = codec.array_len.write-not_null (n % 2 ^ 32) more (len_mod n)

  pub decode_header-encode :
      (as_map : Bool) (name : Bytes) (n : ℕ) (more : Bytes)
      → decode_header codec as_map name (encode_header codec as_map n ++ more)
        ≡ (ok (n % 2 ^ 32), more)
  decode_header-encode true name n more =
      ap (map_err from_vre) (codec.map_len.read-write (n % 2 ^ 32) more (len_mod n))
  decode_header-encode false name n more =
      ap (map_err _) (codec.array_len.read-write (n % 2 ^ 32) more (len_mod n))

  pub char-IsLen : (c : ℕ) → IsChar c → IsLen (length (codec.encode_utf8 c))
  char-IsLen c h = omega (arith, (codec.chars-encode_utf8 c h).3)

  pub try_header-encode :
      (n : ℕ) (more : Bytes)
      → IsLen n
      → try_header codec n (encode_array_header codec n ++ more) ≡ (ok tt, more)
  try_header-encode n more l =
      rw
        (
          codec.array_len.read-write (n % 2 ^ 32) more (len_mod n),
          eq→== (n % 2 ^ 32) n (len_id n l),
        )
        refl

  pub decode_variant_header-encode :
      (name more : Bytes)
      → IsLen (length name)
      → decode_variant_header codec (encode_variant_header codec name ++ more) ≡ (ok name, more)
  decode_variant_header-encode name more l =
      rw
        (
          append_assoc (codec.write_map_len 1) (write_str codec name) more,
          codec.map_len.read-write 1 (write_str codec name ++ more) (omega arith),
          append_assoc (codec.write_str_len (length name)) name more,
          codec.str_len.read-write (length name) (name ++ more) l,
          leb_append name more,
          take-append_length name more,
          drop-append_length name more,
        )
        refl

  pub decode_array_header-encode :
      (n : ℕ) (more : Bytes)
      → decode_array_header codec (encode_array_header codec n ++ more) ≡ (ok (n % 2 ^ 32), more)
  decode_array_header-encode n more =
      ap (map_err from_vre) (codec.array_len.read-write (n % 2 ^ 32) more (len_mod n))
