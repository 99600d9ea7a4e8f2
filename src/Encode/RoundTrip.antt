-- ===== src/Encode/RoundTrip.antt =====
-- What is decoded from the bytes of an encoding, for the types of Encode/Types.
use mathlib.Core.List.{append_assoc}
use tarantool_module.Base.{
  ℕ, suc, ◌%◌, ◌^◌, ◌<◌, ◌≡◌, refl, ap, Bool, false, ◌++◌, none, some, length, arith, ==_self, inl,
  inr, length-append,
}
use tarantool_module.Io.{Bytes}
use tarantool_module.Encode.{Context, is_as_map}
use tarantool_module.Encode.Reader.{ok, map_err}
use tarantool_module.Encode.Rmp.{Codec}
use tarantool_module.Encode.Errors.{from_vre, from_nvre}
use tarantool_module.Encode.Std.{encode_string, decode_string, encode_option, encode_items}
use tarantool_module.Encode.Derive.{
  encode_header, encode_field, encode_array_header, encode_variant_header,
}
use tarantool_module.Encode.Map.{bytes_lt, bytes_lt_asymm, decode_btree_map-encode}
use tarantool_module.Encode.Types.{
  Ty, unit, bool, string, uint, sint, option, vec, boxed, cow, array, struct, Fields, end, required,
  optional, Val, Vals, count, first_field_name, encode_value, encode_fields, decode_value,
  decode_fields, char, tuple_struct, enum, Slots, no_slots, slot, optional_slot, SlotVals,
  slot_count, Variants, no_variants, unit_variant, struct_variant, tuple_variant, Choice, btree_map,
  float32, float64, untagged, try_variants, try_fields, try_slots, variant_of, encode_slots,
  decode_slots, encode_variant, decode_variants,
}
use tarantool_module.Encode.Fits.{
  IsText, Fits, FitsAll, FitsSlots, FitsChoice, FitsPlain, FitsPlainSlots, FitsTried, IsTried,
  bytes_eq_self,
}
use tarantool_module.Encode.Headers.{
  at_end-none, is_none-false, len_id, decode_header-encode, try_header-encode,
  decode_variant_header-encode, decode_array_header-encode,
}
use tarantool_module.Encode.Null.{
  variant-not_null, try_header-refused, encode-not_null, decode-null,
}
use tarantool_module.Encode.Parts.{
  decode_char-encode, decode_required-encode, optional-encode, decode_items-encode,
  decode_string-encode,
}

module _ (codec : Codec) (cx : Context) where
  mutual
    pub decode_value-encode :
        (t : Ty) (v : Val t) (more : Bytes)
        → Fits codec cx t v
        → decode_value codec t cx (encode_value codec t cx v ++ more) ≡ (ok v, more)
    decode_value-encode unit v more f = ap (map_err from_vre) (codec.read_nil-null more)
    decode_value-encode bool v more f = ap (map_err from_vre) (codec.bool.read-write v more tt)
    decode_value-encode string v more f = decode_string-encode codec cx v more f
    decode_value-encode (uint w) v more f =
        ap (map_err from_nvre) ((codec.uint w).read-write v more f)
    decode_value-encode (sint w) v more f =
        ap (map_err from_nvre) ((codec.sint w).read-write v more f)
    decode_value-encode (option t) none more f = rw (codec.read_nil-null more) refl
    decode_value-encode (option t) (some v) more (f, n) =
        rw (encode-not_null codec cx t v more f n, decode_value-encode t v more f) refl
    decode_value-encode (vec t) vs more (l, f) =
        rw
          (
            len_id (length vs) l,
            append_assoc (codec.write_array_len (length vs))
                (encode_items codec (encode_value codec t) cx vs) more,
            codec.array_len.read-write (length vs)
                (encode_items codec (encode_value codec t) cx vs ++ more) l,
            decode_items-encode codec cx (encode_value codec t) (decode_value codec t)
                (Fits codec cx t) (λ v m p. decode_value-encode t v m p) vs 0 more f,
          )
          refl
    decode_value-encode (boxed t) v more f = decode_value-encode t v more f
    decode_value-encode (cow t) v more f = ap (map_err _) (decode_value-encode t v more f)
    decode_value-encode (array n t) vs more (l, e, f) =
        rw
          (
            len_id n l,
            append_assoc (codec.write_array_len n) (encode_items codec (encode_value codec t) cx vs)
                more,
            codec.array_len.read-write n (encode_items codec (encode_value codec t) cx vs ++ more)
                l,
            ==_self n,
            ← e,
            decode_items-encode codec cx (encode_value codec t) (decode_value codec t)
                (Fits codec cx t) (λ v m p. decode_value-encode t v m p) vs 0 more f,
          )
          refl
    decode_value-encode (struct args fs) vs more f =
        let m = is_as_map cx args.as_map in
        rw
          (
            append_assoc (encode_header codec m (count fs)) (encode_fields codec fs m cx vs) more,
            decode_header-encode codec m (first_field_name fs) (count fs)
                (encode_fields codec fs m cx vs ++ more),
          )
          (decode_fields-encode fs args.allow_array_optionals m (count fs) vs more f)
    decode_value-encode (btree_map t) m more (l, s, f) =
        decode_btree_map-encode bytes_lt bytes_lt_asymm codec cx (encode_string codec)
          (encode_value codec t) (decode_string codec) (decode_value codec t)
          (λ e. IsText codec cx e.0 × Fits codec cx t e.1)
          (λ k v r p. decode_string-encode codec cx k r p.0)
          (λ k v r p. decode_value-encode t v r p.1) m more l f s
    decode_value-encode float32 v more f = ap (map_err from_vre) (codec.float32.read-write v more f)
    decode_value-encode float64 v more f = ap (map_err from_vre) (codec.float64.read-write v more f)
    decode_value-encode (untagged vs) c more (t, f) = try_variants-encode vs c more t f
    decode_value-encode char c more f = decode_char-encode codec cx c more f
    decode_value-encode (tuple_struct ss) vs more f =
        let h = encode_array_header codec (slot_count ss) in
        let n : 0 < length (h ++ (encode_slots codec ss cx vs ++ more)) = omega (
          arith,
          length-append h (encode_slots codec ss cx vs ++ more),
          codec.array_len.write_marker (slot_count ss % 2 ^ 32),
        ) in
        rw
          (
            append_assoc h (encode_slots codec ss cx vs) more,
            at_end-none ss (h ++ (encode_slots codec ss cx vs ++ more)) n,
            decode_array_header-encode codec (slot_count ss) (encode_slots codec ss cx vs ++ more),
          )
          (decode_slots-encode ss 0 vs more f)
    decode_value-encode (enum args vs) c more (l, f) =
        rw
          (
            append_assoc (encode_variant_header codec (variant_of vs c))
                (encode_variant codec vs cx c) more,
            decode_variant_header-encode codec (variant_of vs c)
                (encode_variant codec vs cx c ++ more) l,
          )
          (decode_variants-encode vs args.allow_array_optionals c more f)

    decode_fields-encode :
        (fs : Fields) (allow as_map : Bool) (amount : ℕ) (vs : Vals fs) (more : Bytes)
        → FitsAll codec cx fs vs
        → decode_fields codec fs allow as_map amount cx
            (encode_fields codec fs as_map cx vs ++ more)
          ≡ (ok vs, more)
    decode_fields-encode end allow as_map amount vs more f = refl
    decode_fields-encode (required name t fs) allow as_map amount (v, vs) more (l, f, g) =
        let rest = encode_fields codec fs as_map cx vs ++ more in
        rw
          (
            append_assoc (encode_field codec (encode_value codec t) as_map name cx v)
                (encode_fields codec fs as_map cx vs) more,
            decode_required-encode codec cx (encode_value codec t) (decode_value codec t) as_map
                name rest v l (decode_value-encode t v rest f),
            decode_fields-encode fs allow as_map amount vs more g,
          )
          refl
    decode_fields-encode (optional name t fs) allow as_map amount (none, vs) more (l, n, g) =
        let rest = encode_fields codec fs as_map cx vs ++ more in
        rw
          (
            append_assoc
                (encode_field codec (encode_option codec (encode_value codec t)) as_map name cx
                  none)
                (encode_fields codec fs as_map cx vs) more,
            optional-encode codec cx (encode_value codec t) (decode_value codec t) as_map name rest
                none allow amount (count fs) l,
            decode-null codec cx t rest n,
            decode_fields-encode fs allow as_map amount vs more g,
          )
          refl
    decode_fields-encode (optional name t fs) allow as_map amount (some v, vs) more (l, f, g) =
        let rest = encode_fields codec fs as_map cx vs ++ more in
        rw
          (
            append_assoc
                (encode_field codec (encode_option codec (encode_value codec t)) as_map name cx
                  (some v))
                (encode_fields codec fs as_map cx vs) more,
            optional-encode codec cx (encode_value codec t) (decode_value codec t) as_map name rest
                (some v) allow amount (count fs) l,
            decode_value-encode t v rest f,
            decode_fields-encode fs allow as_map amount vs more g,
          )
          refl

    decode_slots-encode :
        (ss : Slots) (i : ℕ) (vs : SlotVals ss) (more : Bytes)
        → FitsSlots codec cx ss vs
        → decode_slots codec ss i cx (encode_slots codec ss cx vs ++ more) ≡ (ok vs, more)
    decode_slots-encode no_slots i vs more f = refl
    decode_slots-encode (slot t ss) i (v, vs) more (f, g) =
        rw
          (
            append_assoc (encode_value codec t cx v) (encode_slots codec ss cx vs) more,
            decode_value-encode t v (encode_slots codec ss cx vs ++ more) f,
            decode_slots-encode ss (suc i) vs more g,
          )
          refl
    decode_slots-encode (optional_slot t ss) i (none, vs) more (n, g) =
        rw
          (
            decode-null codec cx t (encode_slots codec ss cx vs ++ more) n,
            decode_slots-encode ss (suc i) vs more g,
          )
          refl
    decode_slots-encode (optional_slot t ss) i (some v, vs) more (f, g) =
        rw
          (
            append_assoc (encode_value codec t cx v) (encode_slots codec ss cx vs) more,
            decode_value-encode t v (encode_slots codec ss cx vs ++ more) f,
            decode_slots-encode ss (suc i) vs more g,
          )
          refl

    decode_variants-encode :
        (vs : Variants) (allow : Bool) (c : Choice vs) (more : Bytes)
        → FitsChoice codec cx vs c
        → decode_variants codec vs allow (variant_of vs c) cx (encode_variant codec vs cx c ++ more)
          ≡ (ok c, more)
    decode_variants-encode no_variants allow c more f = absurd c
    decode_variants-encode (unit_variant n vs) allow (inl v) more f =
        rw (bytes_eq_self n, codec.read_nil-null more) refl
    decode_variants-encode (unit_variant n vs) allow (inr c) more (e, f) =
        rw (e, decode_variants-encode vs allow c more f) refl
    decode_variants-encode (struct_variant n fs vs) allow (inl v) more f =
        rw
          (
            bytes_eq_self n,
            append_assoc (encode_array_header codec (count fs)) (encode_fields codec fs false cx v)
                more,
            decode_array_header-encode codec (count fs) (encode_fields codec fs false cx v ++ more),
            decode_fields-encode fs allow false (count fs) v more f,
          )
          refl
    decode_variants-encode (struct_variant n fs vs) allow (inr c) more (e, f) =
        rw (e, decode_variants-encode vs allow c more f) refl
    decode_variants-encode (tuple_variant n ss vs) allow (inl v) more f =
        rw
          (
            bytes_eq_self n,
            append_assoc (encode_array_header codec (slot_count ss)) (encode_slots codec ss cx v)
                more,
            decode_array_header-encode codec (slot_count ss) (encode_slots codec ss cx v ++ more),
            decode_slots-encode ss 0 v more f,
          )
          refl
    decode_variants-encode (tuple_variant n ss vs) allow (inr c) more (e, f) =
        rw (e, decode_variants-encode vs allow c more f) refl

    try_variants-encode :
        (vs : Variants) (c : Choice vs) (more : Bytes)
        → IsTried vs c
        → FitsTried codec cx vs c
        → try_variants codec vs cx (encode_variant codec vs cx c ++ more) ≡ (ok c, more)
    try_variants-encode no_variants c more t f = absurd c
    try_variants-encode (unit_variant n vs) (inl v) more t f = rw (codec.read_nil-null more) refl
    try_variants-encode (unit_variant n vs) (inr c) more (t, ts) f =
        let r = encode_variant codec vs cx c ++ more in
        let (e, refused) =
          codec.read_nil-not_null r (variant-not_null codec cx vs c more (is_none-false _ t)) in
        rw (refused, try_variants-encode vs c more ts f) refl
    try_variants-encode (struct_variant n fs vs) (inl v) more t (l, f) =
        rw
          (
            append_assoc (encode_array_header codec (count fs)) (encode_fields codec fs false cx v)
                more,
            try_header-encode codec (count fs) (encode_fields codec fs false cx v ++ more) l,
            try_fields-encode fs v more f,
          )
          refl
    try_variants-encode (struct_variant n fs vs) (inr c) more (t, ts) f =
        let (e, r, refused) = try_header-refused codec cx vs c (count fs) more f t in
        rw (refused, try_variants-encode vs c more ts f) refl
    try_variants-encode (tuple_variant n ss vs) (inl v) more t (l, f) =
        rw
          (
            append_assoc (encode_array_header codec (slot_count ss)) (encode_slots codec ss cx v)
                more,
            try_header-encode codec (slot_count ss) (encode_slots codec ss cx v ++ more) l,
            try_slots-encode ss 0 v more f,
          )
          refl
    try_variants-encode (tuple_variant n ss vs) (inr c) more (t, ts) f =
        let (e, r, refused) = try_header-refused codec cx vs c (slot_count ss) more f t in
        rw (refused, try_variants-encode vs c more ts f) refl

    try_fields-encode :
        (fs : Fields) (vs : Vals fs) (more : Bytes)
        → FitsPlain codec cx fs vs
        → try_fields codec fs cx (encode_fields codec fs false cx vs ++ more) ≡ (ok vs, more)
    try_fields-encode end vs more f = refl
    try_fields-encode (required name t fs) (v, vs) more (f, g) =
        rw
          (
            append_assoc (encode_value codec t cx v) (encode_fields codec fs false cx vs) more,
            decode_value-encode t v (encode_fields codec fs false cx vs ++ more) f,
            try_fields-encode fs vs more g,
          )
          refl
    try_fields-encode (optional name t fs) (none, vs) more g =
        rw
          (
            codec.read_nil-null (encode_fields codec fs false cx vs ++ more),
            try_fields-encode fs vs more g,
          )
          refl
    try_fields-encode (optional name t fs) (some v, vs) more (f, n, g) =
        rw
          (
            append_assoc (encode_value codec t cx v) (encode_fields codec fs false cx vs) more,
            encode-not_null codec cx t v (encode_fields codec fs false cx vs ++ more) f n,
            decode_value-encode t v (encode_fields codec fs false cx vs ++ more) f,
            try_fields-encode fs vs more g,
          )
          refl

    try_slots-encode :
        (ss : Slots) (i : ℕ) (vs : SlotVals ss) (more : Bytes)
        → FitsPlainSlots codec cx ss vs
        → try_slots codec ss i cx (encode_slots codec ss cx vs ++ more) ≡ (ok vs, more)
    try_slots-encode no_slots i vs more f = refl
    try_slots-encode (slot t ss) i (v, vs) more (f, g) =
        rw
          (
            append_assoc (encode_value codec t cx v) (encode_slots codec ss cx vs) more,
            decode_value-encode t v (encode_slots codec ss cx vs ++ more) f,
            try_slots-encode ss (suc i) vs more g,
          )
          refl
    try_slots-encode (optional_slot t ss) i (none, vs) more g =
        rw
          (
            codec.read_nil-null (encode_slots codec ss cx vs ++ more),
            try_slots-encode ss (suc i) vs more g,
          )
          refl
    try_slots-encode (optional_slot t ss) i (some v, vs) more (f, n, g) =
        rw
          (
            append_assoc (encode_value codec t cx v) (encode_slots codec ss cx vs) more,
            encode-not_null codec cx t v (encode_slots codec ss cx vs ++ more) f n,
            decode_value-encode t v (encode_slots codec ss cx vs ++ more) f,
            try_slots-encode ss (suc i) vs more g,
          )
          refl
