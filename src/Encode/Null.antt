-- ===== src/Encode/Null.antt =====
-- What an encoding begins with: a nil, or the marker of something else.
use mathlib.Core.List.{append_assoc}
use tarantool_module.Base.{
  ℕ, ◌%◌, ◌^◌, ◌≡◌, ◌≢◌, sym, ◌∙◌, refl, ap, true, false, [], ◌∷◌, ◌++◌, Option, none, some, length,
  arith, ne→==_false, inl, inr,
}
use tarantool_module.Io.{Bytes}
use tarantool_module.Msgpack.Rmp.{null}
use tarantool_module.Encode.{Context, is_as_map}
use tarantool_module.Encode.Reader.{err, map_err}
use tarantool_module.Encode.Rmp.{Codec, IsLen, is_null, marker_null, type_mismatch}
use tarantool_module.Encode.Errors.{
  new, unequal_amount, read_error, DecodeError, from_vre, from_nvre,
}
use tarantool_module.Encode.Std.{write_str, encode_string, encode_items}
use tarantool_module.Encode.Derive.{
  try_header, encode_header, encode_array_header, encode_variant_header,
}
use tarantool_module.Encode.Map.{encode_entries}
use tarantool_module.Encode.Types.{
  Ty, unit, bool, string, uint, sint, option, vec, boxed, cow, array, struct, Val, count,
  encode_value, encode_fields, decode_value, char, tuple_struct, enum, slot_count, Variants,
  no_variants, unit_variant, struct_variant, tuple_variant, Choice, btree_map, float32, float64,
  untagged, variant_of, encode_slots, encode_variant,
}
use tarantool_module.Encode.Fits.{is_nil, reports_null, Fits, FitsTried, arity_of, is_none}
use tarantool_module.Encode.Headers.{at_end-none, len_mod, len_id, header-not_null, char-IsLen}

module _ (codec : Codec) (cx : Context) where
  -- The bytes of a variant begin with its header.
  abbrev variant_header : Option ℕ → Bytes
  variant_header none = marker_null ∷ []
  variant_header (some n) = encode_array_header codec n

  variant_form :
      (vs : Variants) (c : Choice vs) (more : Bytes)
      → (rest : Bytes) × (encode_variant codec vs cx c ++ more
          ≡ variant_header (arity_of vs c) ++ rest)
  variant_form no_variants c more = absurd c
  variant_form (unit_variant n vs) (inl v) more = (more, refl)
  variant_form (unit_variant n vs) (inr c) more = variant_form vs c more
  variant_form (struct_variant n fs vs) (inl v) more = (
    encode_fields codec fs false cx v ++ more,
    append_assoc (encode_array_header codec (count fs)) (encode_fields codec fs false cx v) more,
  )
  variant_form (struct_variant n fs vs) (inr c) more = variant_form vs c more
  variant_form (tuple_variant n ss vs) (inl v) more = (
    encode_slots codec ss cx v ++ more,
    append_assoc (encode_array_header codec (slot_count ss)) (encode_slots codec ss cx v) more,
  )
  variant_form (tuple_variant n ss vs) (inr c) more = variant_form vs c more

  header_null :
      (a : Option ℕ) (rest : Bytes) → is_none a ≡ false → is_null (variant_header a ++ rest) ≡ false
  header_null none rest h = absurd (cc)
  header_null (some n) rest h = codec.array_len.write-not_null (n % 2 ^ 32) rest (len_mod n)

  pub variant-not_null :
      (vs : Variants) (c : Choice vs) (more : Bytes)
      → is_none (arity_of vs c) ≡ false
      → is_null (encode_variant codec vs cx c ++ more) ≡ false
  variant-not_null vs c more h =
      let (rest, e) = variant_form vs c more in rw e (header_null (arity_of vs c) rest h)

  arity-IsLen :
      (vs : Variants) (c : Choice vs) (n : ℕ)
      → FitsTried codec cx vs c
      → arity_of vs c ≡ some n
      → IsLen n
  arity-IsLen no_variants c n f e = absurd c
  arity-IsLen (unit_variant k vs) (inl v) n f e = absurd (cc)
  arity-IsLen (unit_variant k vs) (inr c) n f e = arity-IsLen vs c n f e
  arity-IsLen (struct_variant k fs vs) (inl v) n (l, f) e = ground (arith, l, e)
  arity-IsLen (struct_variant k fs vs) (inr c) n f e = arity-IsLen vs c n f e
  arity-IsLen (tuple_variant k ss vs) (inl v) n (l, f) e = ground (arith, l, e)
  arity-IsLen (tuple_variant k ss vs) (inr c) n f e = arity-IsLen vs c n f e

  header-refused :
      (a : Option ℕ) (k : ℕ) (rest : Bytes)
      → ((n : ℕ) → a ≡ some n → IsLen n)
      → a ≢ some k
      → (e : DecodeError) × (r : Bytes) × (try_header codec k (variant_header a ++ rest)
          ≡ (err e, r))
  header-refused none k rest l h =
      (new (read_error (type_mismatch null)), rest, rw (codec.array_len.read_null rest) refl)
  header-refused (some n) k rest l h = (
    new unequal_amount,
    rest,
    rw
        (
          codec.array_len.read-write (n % 2 ^ 32) rest (len_mod n),
          ne→==_false (n % 2 ^ 32) k (λ e. h (ap some (sym (len_id n (l n refl)) ∙ e))),
        )
        refl,
  )

  -- A variant with another number of fields refuses the header.
  pub try_header-refused :
      (vs : Variants) (c : Choice vs) (k : ℕ) (more : Bytes)
      → FitsTried codec cx vs c
      → arity_of vs c ≢ some k
      → (e : DecodeError) × (r : Bytes) × (try_header codec k (encode_variant codec vs cx c ++ more)
          ≡ (err e, r))
  try_header-refused vs c k more f h =
      let (rest, e) = variant_form vs c more in
      rw e (header-refused (arity_of vs c) k rest (λ n q. arity-IsLen vs c n f q) h)

  -- What is not written as a nil does not begin with its marker.
  pub encode-not_null :
      (t : Ty) (v : Val t) (more : Bytes)
      → Fits codec cx t v
      → is_nil t v ≡ false
      → is_null (encode_value codec t cx v ++ more) ≡ false
  encode-not_null unit v more f h = absurd (cc)
  encode-not_null bool v more f h = codec.bool.write-not_null v more tt
  encode-not_null string v more f h =
      rw (append_assoc (codec.write_str_len (length v)) v more)
        (codec.str_len.write-not_null (length v) (v ++ more) f.0)
  encode-not_null (uint w) v more f h = (codec.uint w).write-not_null v more f
  encode-not_null (sint w) v more f h = (codec.sint w).write-not_null v more f
  encode-not_null (option t) none more f h = absurd (cc)
  encode-not_null (option t) (some v) more f h = encode-not_null t v more f.0 h
  encode-not_null (vec t) vs more f h =
      rw
        (append_assoc (codec.write_array_len (length vs % 2 ^ 32))
          (encode_items codec (encode_value codec t) cx vs) more)
        (codec.array_len.write-not_null (length vs % 2 ^ 32) _ (len_mod (length vs)))
  encode-not_null (boxed t) v more f h = encode-not_null t v more f h
  encode-not_null (cow t) v more f h = encode-not_null t v more f h
  encode-not_null (array n t) vs more f h =
      rw
        (append_assoc (codec.write_array_len (n % 2 ^ 32))
          (encode_items codec (encode_value codec t) cx vs) more)
        (codec.array_len.write-not_null (n % 2 ^ 32) _ (len_mod n))
  encode-not_null (struct args fs) vs more f h =
      let m = is_as_map cx args.as_map in
      rw (append_assoc (encode_header codec m (count fs)) (encode_fields codec fs m cx vs) more)
        (header-not_null codec m (count fs) _)
  encode-not_null (btree_map t) m more f h =
      rw
        (append_assoc (codec.write_map_len (length m % 2 ^ 32))
          (encode_entries codec (encode_string codec) (encode_value codec t) cx m) more)
        (codec.map_len.write-not_null (length m % 2 ^ 32) _ (len_mod (length m)))
  encode-not_null float32 v more f h = codec.float32.write-not_null v more f
  encode-not_null float64 v more f h = codec.float64.write-not_null v more f
  encode-not_null (untagged vs) c more f h = variant-not_null vs c more h
  encode-not_null char c more f h =
      rw
        (append_assoc (codec.write_str_len (length (codec.encode_utf8 c))) (codec.encode_utf8 c)
          more)
        (codec.str_len.write-not_null (length (codec.encode_utf8 c)) _ (char-IsLen codec c f))
  encode-not_null (tuple_struct ss) vs more f h =
      rw
        (append_assoc (encode_array_header codec (slot_count ss)) (encode_slots codec ss cx vs)
          more)
        (codec.array_len.write-not_null (slot_count ss % 2 ^ 32) _ (len_mod (slot_count ss)))
  encode-not_null (enum args vs) c more f h =
      rw
        (
          append_assoc (encode_variant_header codec (variant_of vs c))
              (encode_variant codec vs cx c) more,
          append_assoc (codec.write_map_len 1) (write_str codec (variant_of vs c))
              (encode_variant codec vs cx c ++ more),
        )
        (codec.map_len.write-not_null 1 _ (omega arith))

  -- A type that reports a nil takes its marker with it.
  pub decode-null :
      (t : Ty) (more : Bytes)
      → reports_null cx t ≡ true
      → decode_value codec t cx (marker_null ∷ more) ≡ (err (from_vre (type_mismatch null)), more)
  decode-null unit more h = absurd (cc)
  decode-null bool more h = ap (map_err from_vre) (codec.bool.read_null more)
  decode-null string more h = rw (codec.str_len.read_null more) refl
  decode-null (uint w) more h = ap (map_err from_nvre) ((codec.uint w).read_null more)
  decode-null (sint w) more h = ap (map_err from_nvre) ((codec.sint w).read_null more)
  decode-null (option t) more h = absurd (cc)
  decode-null (vec t) more h = rw (codec.array_len.read_null more) refl
  decode-null (boxed t) more h = decode-null t more h
  decode-null (cow t) more h = absurd (cc)
  decode-null (array n t) more h = rw (codec.array_len.read_null more) refl
  decode-null (struct args fs) more h = rw (h, codec.map_len.read_null more) refl
  decode-null (btree_map t) more h = absurd (cc)
  decode-null float32 more h = ap (map_err from_vre) (codec.float32.read_null more)
  decode-null float64 more h = ap (map_err from_vre) (codec.float64.read_null more)
  decode-null (untagged vs) more h = absurd (cc)
  decode-null char more h = rw (codec.str_len.read_null more) refl
  decode-null (tuple_struct ss) more h =
      rw (at_end-none ss (marker_null ∷ more) (omega arith), codec.array_len.read_null more) refl
  decode-null (enum args vs) more h = rw (codec.map_len.read_null more) refl
