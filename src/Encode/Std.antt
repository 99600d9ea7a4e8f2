-- ===== src/Encode/Std.antt =====
-- The implementations of `Encode` and `Decode` in tarantool/src/msgpack/encode.rs, each a function
-- of those for its parts. A length is written as 32 bits, `as u32`.
use tarantool_module.Base.{
  ℕ, zero, suc, ◌%◌, ◌^◌, Bool, List, [], ◌∷◌, ◌++◌, Option, none, some, length, take, drop, ltb,
  ◌==◌, if◌then◌else◌,
}
use tarantool_module.Io.{Bytes}
use tarantool_module.Encode.{Context}
use tarantool_module.Encode.Reader.{ok, err, Reader, continue, map_err, ◌>>=◌}
use tarantool_module.Encode.Rmp.{Codec, Width, ℤ, marker_null, is_null}
use tarantool_module.Encode.Errors.{
  DecodeError, Part, element, wrapped, array_count, unexpected_eof, not_utf8, empty_char, long_char,
  many_chars, new, with_part, from_vre, from_nvre,
}

abbrev pub Encode {ℓ} : Type ℓ → Type ℓ
Encode A = Context → A → Bytes

abbrev pub Decode {ℓ} : Type ℓ → Type ℓ
Decode A = Context → Reader DecodeError A

abbrev pub return {ℓ} : {A : Type ℓ} → A → Reader DecodeError A
return a r = (ok a, r)

-- `read_exact` on the slice, and the text made of the bytes
abbrev pub read_exact : ℕ → Reader DecodeError Bytes
read_exact n r =
    if ltb (length r) n then (err (new unexpected_eof), r) else (ok (take n r), drop n r)

-- An error of the part is wrapped and says which part it was.
abbrev pub in_part {ℓ} : {A : Type ℓ} → Part → Reader DecodeError A → Reader DecodeError A
in_part part d r = map_err (λ e. with_part part (new (wrapped e))) (d r)

abbrev pub check_count : ℕ → ℕ → Reader DecodeError (Unit {0})
check_count count n r = if n == count then (ok tt, r) else (err (new (array_count count n)), r)

-- A part's error is wrapped by the type's own, without a part.
abbrev pub wrap_err {ℓ} : {A : Type ℓ} → Reader DecodeError A → Reader DecodeError A
wrap_err d r = map_err (λ e. new (wrapped e)) (d r)

module _ {ℓ} {A : Type ℓ} where
  -- `Box`, and `Rc` likewise
  abbrev pub encode_box : Encode A → Encode A
  encode_box e cx v = e cx v

  abbrev pub decode_box : Decode A → Decode A
  decode_box d cx r = d cx r

  abbrev pub encode_cow : Encode A → Encode A
  encode_cow e cx v = e cx v

  abbrev pub decode_cow : Decode A → Decode A
  decode_cow d cx = wrap_err (d cx)

module _ (codec : Codec) where
  abbrev pub write_nil : Bytes
  write_nil = marker_null ∷ []

  abbrev pub write_str : Bytes → Bytes
  write_str s = codec.write_str_len (length s) ++ s

  abbrev pub encode_unit : Encode (Unit {0})
  encode_unit cx u = write_nil

  abbrev pub decode_unit : Decode (Unit {0})
  decode_unit cx r = map_err from_vre (codec.read_nil r)

  abbrev pub encode_bool : Encode Bool
  encode_bool cx b = codec.write_bool b

  abbrev pub decode_bool : Decode Bool
  decode_bool cx r = map_err from_vre (codec.bool.read r)

  abbrev pub encode_uint : Encode ℕ
  encode_uint cx n = codec.write_uint n

  abbrev pub decode_uint : Width → Decode ℕ
  decode_uint w cx r = map_err from_nvre ((codec.uint w).read r)

  abbrev pub encode_sint : Encode ℤ
  encode_sint cx n = codec.write_sint n

  abbrev pub decode_sint : Width → Decode ℤ
  decode_sint w cx r = map_err from_nvre ((codec.sint w).read r)

  -- `f32` and `f64`, by their bits
  abbrev pub encode_f32 : Encode ℕ
  encode_f32 cx n = codec.write_f32 n

  abbrev pub decode_f32 : Decode ℕ
  decode_f32 cx r = map_err from_vre (codec.float32.read r)

  abbrev pub encode_f64 : Encode ℕ
  encode_f64 cx n = codec.write_f64 n

  abbrev pub decode_f64 : Decode ℕ
  decode_f64 cx r = map_err from_vre (codec.float64.read r)

  abbrev pub encode_string : Encode Bytes
  encode_string cx s = write_str s

  abbrev pub to_text : Bytes → Reader DecodeError Bytes
  to_text s r = if codec.is_utf8 s then (ok s, r) else (err (new not_utf8), r)

  abbrev pub decode_string : Decode Bytes
  decode_string cx =
      (λ r. map_err from_vre (codec.str_len.read r)) >>= (λ n. read_exact n >>= to_text)

  abbrev pub encode_char : Encode ℕ
  encode_char cx c = write_str (codec.encode_utf8 c)

  -- The length in bytes is looked at before the bytes are read, the number of characters after.
  abbrev pub check_char_len : ℕ → Reader DecodeError (Unit {0})
  check_char_len n r =
      if n == 0
      then (err (new empty_char), r)
      else (if ltb 4 n then (err (new (long_char n)), r) else (ok tt, r))

  abbrev pub one_char : ℕ → List ℕ → Reader DecodeError ℕ
  one_char n (c ∷ []) r = (ok c, r)
  one_char n _ r = (err (new (many_chars n)), r)

  abbrev pub to_char : ℕ → Bytes → Reader DecodeError ℕ
  to_char n s = to_text s >>= (λ s. one_char n (codec.chars s))

  abbrev pub decode_char : Decode ℕ
  decode_char cx =
      (λ r. map_err from_vre (codec.str_len.read r))
      >>= (λ n. check_char_len n >>= (λ u. read_exact n >>= to_char n))

  module _ {ℓ} {A : Type ℓ} where
    abbrev pub encode_option : Encode A → Encode (Option A)
    encode_option e cx (some v) = e cx v
    encode_option e cx none = write_nil

    abbrev pub decode_option : Decode A → Decode (Option A)
    decode_option d cx r =
        if is_null r
        then continue (λ u. return none) (map_err from_vre (codec.read_nil r))
        else continue (λ v. return (some v)) (d cx r)

    abbrev pub encode_items : Encode A → Encode (List A)
    encode_items e cx [] = []
    encode_items e cx (v ∷ vs) = e cx v ++ encode_items e cx vs

    -- `[T]`, and `Vec<T>` with it
    abbrev pub encode_vec : Encode A → Encode (List A)
    encode_vec e cx vs = codec.write_array_len (length vs % 2 ^ 32) ++ encode_items e cx vs

    -- The loop over the elements: `n` are left, and the next is the `i`th.
    abbrev pub decode_items : Decode A → ℕ → ℕ → Decode (List A)
    decode_items d zero i cx = return []
    decode_items d (suc n) i cx =
        in_part (element i) (d cx)
        >>= (λ v. decode_items d n (suc i) cx >>= (λ vs. return (v ∷ vs)))

    abbrev pub decode_vec : Decode A → Decode (List A)
    decode_vec d cx =
        (λ r. map_err from_vre (codec.array_len.read r)) >>= (λ n. decode_items d n 0 cx)

    -- `[T; N]`
    abbrev pub encode_array : ℕ → Encode A → Encode (List A)
    encode_array count e cx vs = codec.write_array_len (count % 2 ^ 32) ++ encode_items e cx vs

    abbrev pub decode_array : ℕ → Decode A → Decode (List A)
    decode_array count d cx =
        (λ r. map_err from_vre (codec.array_len.read r))
        >>= (λ n. check_count count n >>= (λ u. decode_items d count 0 cx))
