-- ===== src/Encode/Errors.antt =====
-- `DecodeError` of tarantool/src/msgpack/encode.rs. Its texts are given by what they are made of;
-- the name of the type being decoded is left out.
use tarantool_module.Base.{ℕ, Bool, true, false, Option, none, some}
use tarantool_module.Io.{Bytes}
use tarantool_module.Msgpack.Rmp.{Marker, null}
use tarantool_module.Encode.Rmp.{ReadError, type_mismatch, invalid_marker_read}

pub data Part : Type 0 where
  got : Marker → Part
  got_in_field : Marker → Bytes → Part
  element nth_key nth_value : ℕ → Part
  field : Bytes → Part
  field_index index : ℕ → Part
  field_name variant_name : Part

mutual
  pub data DecodeError : Type 0 where
    decode_error : Source → Option Part → DecodeError

  -- The text of an error of `rmp`, of another decoding error, or one of the implementation's own
  pub data Source : Type 0 where
    read_error : ReadError → Source
    wrapped : DecodeError → Source
    array_count not_enough_fields : ℕ → ℕ → Source
    unexpected_eof not_utf8 not_enough_data : Source
    unexpected_field : Bytes → Bytes → Source
    no_variant : Bytes → Source
    empty_char unequal_amount no_match : Source
    long_char many_chars : ℕ → Source

abbrev pub new : Source → DecodeError
new source = decode_error source none

abbrev pub with_part : Part → DecodeError → DecodeError
with_part part (decode_error source _) = decode_error source (some part)

abbrev pub from_vre : ReadError → DecodeError
from_vre (type_mismatch marker) = with_part (got marker) (new (read_error (type_mismatch marker)))
from_vre e = new (read_error e)

abbrev pub from_vre_with_field : Bytes → ReadError → DecodeError
from_vre_with_field name (type_mismatch marker) =
    with_part (got_in_field marker name) (new (read_error (type_mismatch marker)))
from_vre_with_field name e = new (read_error e)

abbrev pub from_nvre : ReadError → DecodeError
from_nvre (type_mismatch marker) = with_part (got marker) (new (read_error (type_mismatch marker)))
from_nvre e = new (read_error e)

-- The tests of the derived code for an optional field: whether the part is "got Null", and whether
-- the text ends in "failed to read MessagePack marker", as that of a wrapped error does too.
abbrev pub is_nulled : DecodeError → Bool
is_nulled (decode_error _ (some (got null))) = true
is_nulled _ = false

abbrev mutual
  pub is_markered : DecodeError → Bool
  is_markered (decode_error source _) = ends_markered source

  pub ends_markered : Source → Bool
  ends_markered (read_error invalid_marker_read) = true
  ends_markered (wrapped e) = is_markered e
  ends_markered _ = false
