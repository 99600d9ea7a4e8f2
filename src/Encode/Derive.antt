-- ===== src/Encode/Derive.antt =====
-- The code that the macros of tarantool-proc/src/lib.rs generate for a struct with named fields:
-- field by field, with the key in front of a field where the struct is written as a map.
use tarantool_module.Base.{
  ℕ, ◌+◌, ◌%◌, ◌^◌, Bool, true, false, not, ◌&&◌, [], ◌∷◌, ◌++◌, Option, none, some, length, take,
  drop, leb, ◌==◌, if◌then◌else◌,
}
use tarantool_module.Io.{Bytes}
use tarantool_module.Msgpack.Rmp.{Marker, fix_str, str8, str16, str32}
use tarantool_module.Encode.{Context}
use tarantool_module.Encode.Reader.{
  Outcome, ok, err, panic, Reader, continue, map_err, unwrap, ◌>>=◌,
}
use tarantool_module.Encode.Rmp.{Codec, ReadError, type_mismatch}
use tarantool_module.Encode.Errors.{
  DecodeError, field, field_name, field_index, index, variant_name, wrapped, unequal_amount,
  read_error, not_enough_fields, not_enough_data, unexpected_field, new, with_part, from_vre,
  from_vre_with_field, is_nulled, is_markered,
}
use tarantool_module.Encode.Std.{Encode, Decode, return, in_part, write_str}

abbrev pub bytes_eq : Bytes → Bytes → Bool
bytes_eq [] [] = true
bytes_eq (x ∷ xs) (y ∷ ys) = (x == y) && bytes_eq xs ys
bytes_eq _ _ = false

module _ (codec : Codec) where
  -- `str_bounds` of tarantool/src/msgpack.rs, which indexes the first byte and reads from a copy of
  -- the slice
  abbrev pub behind : ℕ → Outcome ReadError ℕ × Bytes → Outcome ReadError (ℕ × ℕ)
  behind k (ok n, _) = ok (k, n + k)
  behind k (err e, _) = err e
  behind k (panic, _) = panic

  abbrev pub bounds_at : Marker → Bytes → Outcome ReadError (ℕ × ℕ)
  bounds_at (fix_str len) r = ok (1, len + 1)
  bounds_at str8 r = behind 2 (codec.str_len.read r)
  bounds_at str16 r = behind 3 (codec.str_len.read r)
  bounds_at str32 r = behind 5 (codec.str_len.read r)
  bounds_at marker r = err (type_mismatch marker)

  abbrev pub str_bounds : Bytes → Outcome ReadError (ℕ × ℕ)
  str_bounds [] = panic
  str_bounds (b ∷ r) = bounds_at (codec.from_u8 b) (b ∷ r)

  abbrev pub encode_header : Bool → ℕ → Bytes
  encode_header as_map count =
      if as_map
      then codec.write_map_len (count % 2 ^ 32)
      else codec.write_array_len (count % 2 ^ 32)

  abbrev pub write_key : Bool → Bytes → Bytes
  write_key as_map name = if as_map then write_str codec name else []

  -- The count that is read is not looked at.
  abbrev pub decode_header : Bool → Bytes → Reader DecodeError ℕ
  decode_header as_map first r =
      if as_map
      then map_err from_vre (codec.map_len.read r)
      else map_err (from_vre_with_field first) (codec.array_len.read r)

  -- The key of a required field
  abbrev pub take_name : ℕ → Reader DecodeError Bytes
  take_name n r =
      if leb n (length r)
      then (ok (take n r), drop n r)
      else (err (with_part field_name (new not_enough_data)), r)

  abbrev pub check_name : Bytes → Bytes → Reader DecodeError (Unit {0})
  check_name name decoded r =
      if bytes_eq decoded name then (ok tt, r) else (err (new (unexpected_field name decoded)), r)

  abbrev pub read_len : Reader DecodeError ℕ
  read_len r = map_err (λ e. with_part field_name (from_vre e)) (codec.str_len.read r)

  abbrev pub read_key : Bool → Bytes → Reader DecodeError (Unit {0})
  read_key as_map name =
      if as_map then (read_len >>= (λ n. take_name n >>= check_name name)) else return tt

  -- The key of an optional field: whether the field is left out, in which case nothing is read.
  abbrev pub advance_name : ℕ → Reader DecodeError Bool
  advance_name n r = if leb n (length r) then (ok false, drop n r) else (panic, r)

  abbrev pub match_name : Bytes → ℕ × ℕ → Reader DecodeError Bool
  match_name name (from, to) r =
      if leb to (length r)
      then (if bytes_eq (drop from (take to r)) name
          then continue advance_name (unwrap (map_err from_vre (codec.str_len.read r)))
          else (ok true, r))
      else (panic, r)

  abbrev pub at_bounds : Bytes → Outcome ReadError (ℕ × ℕ) → Reader DecodeError Bool
  at_bounds name (ok bounds) r = match_name name bounds r
  at_bounds name (err e) r = (err (with_part field_name (new (read_error e))), r)
  at_bounds name panic r = (panic, r)

  abbrev pub try_key : Bool → Bytes → Reader DecodeError Bool
  try_key as_map name r = if as_map then at_bounds name (str_bounds r) r else (ok false, r)

  module _ {ℓ} {A : Type ℓ} where
    abbrev pub encode_field : Encode A → Bool → Bytes → Encode A
    encode_field e as_map name cx v = write_key as_map name ++ e cx v

    abbrev pub decode_required : Decode A → Bool → Bytes → Decode A
    decode_required d as_map name cx = read_key as_map name >>= (λ u. in_part (field name) (d cx))

    -- What an error of the contents does to an optional field: `amount` fields has the struct, and
    -- `passed` come behind this one.
    abbrev pub keep_or_fail :
        Bool → Bool → ℕ → ℕ → Outcome DecodeError A × Bytes → Outcome DecodeError (Option A) × Bytes
    keep_or_fail allow as_map amount passed (ok v, r) = (ok (some v), r)
    keep_or_fail allow as_map amount passed (panic, r) = (panic, r)
    keep_or_fail allow as_map amount passed (err e, r) =
        if (not (is_nulled e) && not allow) && not as_map
        then (err (new (not_enough_fields amount passed)), r)
        else (if (not (is_nulled e) && not (is_markered e)) && allow
            then (err e, r)
            else (ok none, r))

    abbrev pub decode_contents :
        Decode A → Bool → Bool → ℕ → ℕ → Context → Bool → Reader DecodeError (Option A)
    decode_contents d allow as_map amount passed cx is_none r =
        if is_none then (ok none, r) else keep_or_fail allow as_map amount passed (d cx r)

    abbrev pub decode_optional : Decode A → Bool → Bool → ℕ → ℕ → Bytes → Decode (Option A)
    decode_optional d allow as_map amount passed name cx =
        try_key as_map name >>= decode_contents d allow as_map amount passed cx

    -- A field of a tuple struct or variant, by its index
    abbrev pub decode_unnamed_required : Decode A → ℕ → Decode A
    decode_unnamed_required d i cx = in_part (field_index i) (d cx)

    abbrev pub keep_or_wrap :
        ℕ → Outcome DecodeError A × Bytes → Outcome DecodeError (Option A) × Bytes
    keep_or_wrap i (ok v, r) = (ok (some v), r)
    keep_or_wrap i (panic, r) = (panic, r)
    keep_or_wrap i (err e, r) =
        if not (is_nulled e) && not (is_markered e)
        then (err (with_part (index i) (new (wrapped e))), r)
        else (ok none, r)

    abbrev pub decode_unnamed_optional : Decode A → ℕ → Decode (Option A)
    decode_unnamed_optional d i cx r = keep_or_wrap i (d cx r)

  -- The header of a tuple struct and of a variant with fields
  abbrev pub encode_array_header : ℕ → Bytes
  encode_array_header count = codec.write_array_len (count % 2 ^ 32)

  abbrev pub decode_array_header : Reader DecodeError ℕ
  decode_array_header r = map_err from_vre (codec.array_len.read r)

  -- An enum is a map of one entry, whose key names the variant. The count that is read is not
  -- looked at.
  abbrev pub encode_variant_header : Bytes → Bytes
  encode_variant_header name = codec.write_map_len 1 ++ write_str codec name

  abbrev pub read_variant_len : Reader DecodeError ℕ
  read_variant_len r = map_err (λ e. with_part variant_name (from_vre e)) (codec.str_len.read r)

  abbrev pub take_variant_name : ℕ → Reader DecodeError Bytes
  take_variant_name n r =
      if leb n (length r)
      then (ok (take n r), drop n r)
      else (err (with_part variant_name (new not_enough_data)), r)

  abbrev pub decode_variant_header : Reader DecodeError Bytes
  decode_variant_header =
      (λ r. map_err from_vre (codec.map_len.read r))
      >>= (λ count. read_variant_len >>= take_variant_name)

  -- The header of a variant that an untagged enum tries
  abbrev pub check_amount : ℕ → ℕ → Reader DecodeError (Unit {0})
  check_amount count amount r =
      if amount == count then (ok tt, r) else (err (new unequal_amount), r)

  abbrev pub try_header : ℕ → Reader DecodeError (Unit {0})
  try_header count =
      (λ r. map_err (λ e. new (read_error e)) (codec.array_len.read r)) >>= check_amount count

-- What a try gave, or else the next
abbrev pub or_next {ℓ κ} :
    {A : Type ℓ} {B : Type κ}
    → (A → B)
    → Outcome DecodeError A × Bytes
    → Outcome DecodeError B × Bytes
    → Outcome DecodeError B × Bytes
or_next f (ok a, r) next = (ok (f a), r)
or_next f (err e, r) next = next
or_next f (panic, r) next = (panic, r)
