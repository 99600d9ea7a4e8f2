-- ===== src/Encode/Types.antt =====
-- The types for which `Encode` and `Decode` are implemented or derived, closed under each other, and
-- which implementation each of them has. The keys of a `btree_map` are texts.
use tarantool_module.Base.{
  ℕ, suc, Bool, false, List, [], ◌++◌, Option, none, some, ◌⊎◌, inl, inr, if◌then◌else◌,
}
use tarantool_module.Io.{Bytes}
use tarantool_module.Encode.{Context, default_context, is_as_map}
use tarantool_module.Encode.Reader.{Outcome, Reader, ok, err, continue, ◌>>=◌}
use tarantool_module.Encode.Rmp.{Codec, Width, ℤ}
use tarantool_module.Encode.Errors.{DecodeError, field, field_index, no_match, no_variant, new}
use tarantool_module.Encode.Std.{
  in_part, encode_f32, decode_f32, encode_f64, decode_f64, return, encode_unit, decode_unit,
  encode_bool, decode_bool, encode_uint, decode_uint, encode_sint, decode_sint, encode_string,
  decode_string, encode_option, decode_option, encode_vec, decode_vec, encode_array, decode_array,
  encode_box, decode_box, encode_cow, decode_cow, encode_char, decode_char, wrap_err,
}
use tarantool_module.Encode.Map.{bytes_lt, encode_btree_map, decode_btree_map}
use tarantool_module.Encode.Derive.{
  try_header, or_next, encode_header, decode_header, encode_field, decode_required, decode_optional,
  bytes_eq, decode_unnamed_required, decode_unnamed_optional, encode_array_header,
  decode_array_header, encode_variant_header, decode_variant_header,
}

-- The attributes `as_map` and `allow_array_optionals` of a struct
pub record Args : Type 0 where
  pub as_map : Bool
  pub allow_array_optionals : Bool

mutual
  pub data Ty : Type 0 where
    unit bool string char float32 float64 : Ty
    uint sint : Width → Ty
    option vec boxed cow btree_map : Ty → Ty
    array : ℕ → Ty → Ty
    struct : Args → Fields → Ty
    tuple_struct : Slots → Ty
    enum : Args → Variants → Ty
    untagged : Variants → Ty

  -- The named fields of a struct; the type of an optional one is an `Option` of the type given.
  pub data Fields : Type 0 where
    end : Fields
    required optional : Bytes → Ty → Fields → Fields

  -- The fields of a tuple struct
  pub data Slots : Type 0 where
    no_slots : Slots
    slot optional_slot : Ty → Slots → Slots

  -- The variants of an enum, by their names
  pub data Variants : Type 0 where
    no_variants : Variants
    unit_variant : Bytes → Variants → Variants
    struct_variant : Bytes → Fields → Variants → Variants
    tuple_variant : Bytes → Slots → Variants → Variants

abbrev mutual
  pub Val : Ty → Type 0
  Val unit = Unit {0}
  Val bool = Bool
  Val string = Bytes
  Val (uint w) = ℕ
  Val (sint w) = ℤ
  Val (option t) = Option (Val t)
  Val (vec t) = List (Val t)
  Val (boxed t) = Val t
  Val (cow t) = Val t
  Val (array n t) = List (Val t)
  Val (struct args fs) = Vals fs
  Val char = ℕ
  Val float32 = ℕ
  Val float64 = ℕ
  Val (untagged vs) = Choice vs
  Val (btree_map t) = List (Bytes × Val t)
  Val (tuple_struct ss) = SlotVals ss
  Val (enum args vs) = Choice vs

  pub Vals : Fields → Type 0
  Vals end = Unit {0}
  Vals (required name t fs) = Val t × Vals fs
  Vals (optional name t fs) = Option (Val t) × Vals fs

  pub SlotVals : Slots → Type 0
  SlotVals no_slots = Unit {0}
  SlotVals (slot t ss) = Val t × SlotVals ss
  SlotVals (optional_slot t ss) = Option (Val t) × SlotVals ss

  pub Choice : Variants → Type 0
  Choice no_variants = ⊥
  Choice (unit_variant name vs) = Unit {0} ⊎ Choice vs
  Choice (struct_variant name fs vs) = Vals fs ⊎ Choice vs
  Choice (tuple_variant name ss vs) = SlotVals ss ⊎ Choice vs

abbrev pub count : Fields → ℕ
count end = 0
count (required name t fs) = suc (count fs)
count (optional name t fs) = suc (count fs)

abbrev pub first_field_name : Fields → Bytes
first_field_name end = []
first_field_name (required name t fs) = name
first_field_name (optional name t fs) = name

abbrev pub slot_count : Slots → ℕ
slot_count no_slots = 0
slot_count (slot t ss) = suc (slot_count ss)
slot_count (optional_slot t ss) = suc (slot_count ss)

abbrev pub variant_of : (vs : Variants) → Choice vs → Bytes
variant_of no_variants c = absurd c
variant_of (unit_variant name vs) (inl v) = name
variant_of (unit_variant name vs) (inr c) = variant_of vs c
variant_of (struct_variant name fs vs) (inl v) = name
variant_of (struct_variant name fs vs) (inr c) = variant_of vs c
variant_of (tuple_variant name ss vs) (inl v) = name
variant_of (tuple_variant name ss vs) (inr c) = variant_of vs c

-- A tuple struct of one `Option` is `None` at the end of the slice.
abbrev pub at_end : (ss : Slots) → Bytes → Option (SlotVals ss)
at_end (optional_slot t no_slots) [] = some (none, tt)
at_end ss r = none

abbrev pub or_read {ℓ} : {A : Type ℓ} → Option A → Reader DecodeError A → Reader DecodeError A
or_read (some a) d r = (ok a, r)
or_read none d r = d r

module _ (codec : Codec) where
  abbrev mutual
    pub encode_value : (t : Ty) → Context → Val t → Bytes
    encode_value unit = encode_unit codec
    encode_value bool = encode_bool codec
    encode_value string = encode_string codec
    encode_value (uint w) = encode_uint codec
    encode_value (sint w) = encode_sint codec
    encode_value (option t) = encode_option codec (encode_value t)
    encode_value (vec t) = encode_vec codec (encode_value t)
    encode_value (boxed t) = encode_box (encode_value t)
    encode_value (cow t) = encode_cow (encode_value t)
    encode_value (array n t) = encode_array codec n (encode_value t)
    encode_value (struct args fs) = λ cx vs.
        encode_header codec (is_as_map cx args.as_map) (count fs)
        ++ encode_fields fs (is_as_map cx args.as_map) cx vs
    encode_value char = encode_char codec
    encode_value float32 = encode_f32 codec
    encode_value float64 = encode_f64 codec
    encode_value (untagged vs) = encode_variant vs
    encode_value (btree_map t) = encode_btree_map codec (encode_string codec) (encode_value t)
    encode_value (tuple_struct ss) =
        λ cx vs. encode_array_header codec (slot_count ss) ++ encode_slots ss cx vs
    encode_value (enum args vs) =
        λ cx c. encode_variant_header codec (variant_of vs c) ++ encode_variant vs cx c

    pub encode_fields : (fs : Fields) → Bool → Context → Vals fs → Bytes
    encode_fields end as_map cx vs = []
    encode_fields (required name t fs) as_map cx (v, vs) =
        encode_field codec (encode_value t) as_map name cx v ++ encode_fields fs as_map cx vs
    encode_fields (optional name t fs) as_map cx (v, vs) =
        encode_field codec (encode_option codec (encode_value t)) as_map name cx v
        ++ encode_fields fs as_map cx vs

    pub encode_slots : (ss : Slots) → Context → SlotVals ss → Bytes
    encode_slots no_slots cx vs = []
    encode_slots (slot t ss) cx (v, vs) = encode_value t cx v ++ encode_slots ss cx vs
    encode_slots (optional_slot t ss) cx (v, vs) =
        encode_option codec (encode_value t) cx v ++ encode_slots ss cx vs

    pub encode_variant : (vs : Variants) → Context → Choice vs → Bytes
    encode_variant no_variants cx c = []
    encode_variant (unit_variant name vs) cx (inl v) = encode_unit codec cx v
    encode_variant (unit_variant name vs) cx (inr c) = encode_variant vs cx c
    encode_variant (struct_variant name fs vs) cx (inl v) =
        encode_array_header codec (count fs) ++ encode_fields fs false cx v
    encode_variant (struct_variant name fs vs) cx (inr c) = encode_variant vs cx c
    encode_variant (tuple_variant name ss vs) cx (inl v) =
        encode_array_header codec (slot_count ss) ++ encode_slots ss cx v
    encode_variant (tuple_variant name ss vs) cx (inr c) = encode_variant vs cx c

  abbrev mutual
    pub decode_value : (t : Ty) → Context → Reader DecodeError (Val t)
    decode_value unit = decode_unit codec
    decode_value bool = decode_bool codec
    decode_value string = decode_string codec
    decode_value (uint w) = decode_uint codec w
    decode_value (sint w) = decode_sint codec w
    decode_value (option t) = decode_option codec (decode_value t)
    decode_value (vec t) = decode_vec codec (decode_value t)
    decode_value (boxed t) = decode_box (decode_value t)
    decode_value (cow t) = decode_cow (decode_value t)
    decode_value (array n t) = decode_array codec n (decode_value t)
    decode_value (struct args fs) = λ cx.
        decode_header codec (is_as_map cx args.as_map) (first_field_name fs) >>= (λ n.
          decode_fields fs args.allow_array_optionals (is_as_map cx args.as_map) (count fs) cx)
    decode_value char = decode_char codec
    decode_value float32 = decode_f32 codec
    decode_value float64 = decode_f64 codec
    decode_value (untagged vs) = try_variants vs
    decode_value (btree_map t) =
        decode_btree_map codec bytes_lt (decode_string codec) (decode_value t)
    decode_value (tuple_struct ss) =
        λ cx r. or_read (at_end ss r) (decode_array_header codec >>= (λ n. decode_slots ss 0 cx)) r
    decode_value (enum args vs) = λ cx.
        decode_variant_header codec
        >>= (λ name. decode_variants vs args.allow_array_optionals name cx)

    pub decode_fields : (fs : Fields) → Bool → Bool → ℕ → Context → Reader DecodeError (Vals fs)
    decode_fields end allow as_map amount cx = return tt
    decode_fields (required name t fs) allow as_map amount cx =
        decode_required codec (decode_value t) as_map name cx
        >>= (λ v. decode_fields fs allow as_map amount cx >>= (λ vs. return (v, vs)))
    decode_fields (optional name t fs) allow as_map amount cx =
        decode_optional codec (decode_value t) allow as_map amount (count fs) name cx
        >>= (λ v. decode_fields fs allow as_map amount cx >>= (λ vs. return (v, vs)))

    pub decode_slots : (ss : Slots) → ℕ → Context → Reader DecodeError (SlotVals ss)
    decode_slots no_slots i cx = return tt
    decode_slots (slot t ss) i cx =
        decode_unnamed_required codec (decode_value t) i cx
        >>= (λ v. decode_slots ss (suc i) cx >>= (λ vs. return (v, vs)))
    decode_slots (optional_slot t ss) i cx =
        decode_unnamed_optional codec (decode_value t) i cx
        >>= (λ v. decode_slots ss (suc i) cx >>= (λ vs. return (v, vs)))

    -- The match on the name, and what is behind it
    pub decode_variants : (vs : Variants) → Bool → Bytes → Context → Reader DecodeError (Choice vs)
    decode_variants no_variants allow name cx = λ r. (err (new (no_variant name)), r)
    decode_variants (unit_variant n vs) allow name cx =
        if bytes_eq name n
        then wrap_err (decode_unit codec cx) >>= (λ v. return (inl v))
        else (decode_variants vs allow name cx >>= (λ c. return (inr c)))
    decode_variants (struct_variant n fs vs) allow name cx =
        if bytes_eq name n
        then decode_array_header codec
          >>= (λ k. decode_fields fs allow false (count fs) cx >>= (λ v. return (inl v)))
        else (decode_variants vs allow name cx >>= (λ c. return (inr c)))
    decode_variants (tuple_variant n ss vs) allow name cx =
        if bytes_eq name n
        then decode_array_header codec >>= (λ k. decode_slots ss 0 cx >>= (λ v. return (inl v)))
        else (decode_variants vs allow name cx >>= (λ c. return (inr c)))

    -- The variants of an untagged enum, each on a copy of the slice
    pub try_fields : (fs : Fields) → Context → Reader DecodeError (Vals fs)
    try_fields end cx = return tt
    try_fields (required name t fs) cx =
        in_part (field name) (decode_value t cx)
        >>= (λ v. try_fields fs cx >>= (λ vs. return (v, vs)))
    try_fields (optional name t fs) cx =
        in_part (field name) (decode_option codec (decode_value t) cx)
        >>= (λ v. try_fields fs cx >>= (λ vs. return (v, vs)))

    pub try_slots : (ss : Slots) → ℕ → Context → Reader DecodeError (SlotVals ss)
    try_slots no_slots i cx = return tt
    try_slots (slot t ss) i cx =
        in_part (field_index i) (decode_value t cx)
        >>= (λ v. try_slots ss (suc i) cx >>= (λ vs. return (v, vs)))
    try_slots (optional_slot t ss) i cx =
        in_part (field_index i) (decode_option codec (decode_value t) cx)
        >>= (λ v. try_slots ss (suc i) cx >>= (λ vs. return (v, vs)))

    pub try_variants : (vs : Variants) → Context → Reader DecodeError (Choice vs)
    try_variants no_variants cx = λ r. (err (new no_match), r)
    try_variants (unit_variant n vs) cx = λ r.
        or_next inl (wrap_err (decode_unit codec cx) r)
          (continue (λ c. return (inr c)) (try_variants vs cx r))
    try_variants (struct_variant n fs vs) cx = λ r.
        or_next inl ((try_header codec (count fs) >>= (λ u. try_fields fs cx)) r)
          (continue (λ c. return (inr c)) (try_variants vs cx r))
    try_variants (tuple_variant n ss vs) cx = λ r.
        or_next inl ((try_header codec (slot_count ss) >>= (λ u. try_slots ss 0 cx)) r)
          (continue (λ c. return (inr c)) (try_variants vs cx r))

  -- The module's `encode` and `decode`
  abbrev pub encode : (t : Ty) → Val t → Bytes
  encode t v = encode_value t default_context v

  abbrev pub decode : (t : Ty) → Bytes → Outcome DecodeError (Val t)
  decode t bytes = (decode_value t default_context bytes).0
