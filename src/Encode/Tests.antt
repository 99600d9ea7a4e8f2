-- ===== src/Encode/Tests.antt =====
-- The claims on the encoding at concrete values.
use tarantool_module.Base.{
  inl, inr, ◌≡◌, refl, ap, true, false, [], ◌∷◌, ◌++◌, some, none, arith, All,
}
use tarantool_module.Io.{Bytes}
use tarantool_module.Msgpack.Rmp.{null}
use tarantool_module.Encode.{Context, default_context, force_as_map, with_struct_style}
use tarantool_module.Encode.Fits.{FitsTried, Fits, FitsAll}
use tarantool_module.Encode.Reader.{ok, err, panic, map_err}
use tarantool_module.Encode.Rmp.{negsuc, type_mismatch, w8, w16, IsUint}
use tarantool_module.Encode.Errors.{element, wrapped, not_enough_fields, new, with_part, from_nvre}
use tarantool_module.Encode.Std.{encode_items, decode_uint, encode_uint, decode_vec}
use tarantool_module.Encode.Derive.{encode_header}
use tarantool_module.Encode.Types.{
  Variants, Choice, no_variants, unit_variant, struct_variant, slot, optional_slot, no_slots,
  tuple_struct, enum, untagged, btree_map, float64, char, Args, Ty, bool, string, uint, sint, vec,
  cow, array, struct, Fields, end, required, optional, Val, encode_value, encode_fields,
  decode_value, encode, decode,
}
use tarantool_module.Encode.Laws.{
  decode-encode, decode_vec-failed, none-refused, omitted_last-panic,
}
use tarantool_module.Encode.Sample.{codec}

abbrev as_array : Args
as_array = record { as_map = false; allow_array_optionals = false }

abbrev name_a : Bytes
name_a = 97 ∷ []

abbrev name_b : Bytes
name_b = 98 ∷ []

-- struct { a: u8, b: Option<Vec<i16>> }
abbrev inner : Fields
inner = required name_a (uint w8) (optional name_b (vec (sint w16)) end)

-- struct { a: Option<Cow<bool>>, b: [String; 2] }, and of it a vector
abbrev outer : Fields
outer = optional name_a (cow bool) (required name_b (array 2 string) end)

abbrev both : Ty
both =
    struct as_array
      (required name_a (struct as_array inner) (required name_b (vec (struct as_array outer)) end))

abbrev pair : Val both
pair = ((200, (none, tt)), ((some true, ((7 ∷ []) ∷ [] ∷ [], tt)) ∷ [], tt))

abbrev as_maps : Context
as_maps = with_struct_style force_as_map default_context

-- enum { A, B { a: u8, b: Option<Vec<i16>> } }, tagged and untagged
abbrev choices : Variants
choices = unit_variant name_a (struct_variant name_b inner no_variants)

abbrev second : Choice choices
second = inr (inl (200, (some (negsuc 3 ∷ []), tt)))

-- A tuple struct of these, of a map and of an optional character
abbrev whole : Ty
whole = tuple_struct (
    slot both (
      slot (enum as_array choices)
        (slot (untagged choices) (slot (btree_map float64) (optional_slot char no_slots)))))

abbrev value : Val whole
value = (pair, (second, (second, ((name_a, 5) ∷ (name_b, 6) ∷ [], (some 0x20ac, tt)))))

outer-FitsAll : (cx : Context) → All (FitsAll codec cx outer) (pair.1.0)
outer-FitsAll cx = (
  (
    omega arith,
    tt,
    (omega arith, (omega arith, refl, ((omega arith, refl), ((omega arith, refl), tt))), tt),
  ),
  tt,
)

pair-Fits : (cx : Context) → Fits codec cx both pair
pair-Fits cx = (
  omega arith,
  (omega arith, omega arith, (omega arith, refl, tt)),
  (omega arith, (omega arith, outer-FitsAll cx), tt),
)

second-FitsAll : (cx : Context) → FitsAll codec cx inner (200, (some (negsuc 3 ∷ []), tt))
second-FitsAll cx = (omega arith, omega arith, (omega arith, (omega arith, (omega arith, tt)), tt))

second-FitsTried : (cx : Context) → FitsTried codec cx choices second
second-FitsTried cx = (omega arith, (omega arith, ((omega arith, (omega arith, tt)), refl, tt)))

entries-Fits : (cx : Context) → Fits codec cx (btree_map float64) ((name_a, 5) ∷ (name_b, 6) ∷ [])
entries-Fits cx = (
  omega arith,
  ((refl, tt), (tt, tt)),
  (((omega arith, refl), omega arith), (((omega arith, refl), omega arith), tt)),
)

value-Fits : (cx : Context) → Fits codec cx whole value
value-Fits cx = (
  pair-Fits cx,
  (
    (omega arith, (refl, second-FitsAll cx)),
    ((((λ e. cc), tt), second-FitsTried cx), (entries-Fits cx, (inl (omega arith), tt))),
  ),
)

decode-encode_example :
    (decode_value codec whole as_maps (encode_value codec whole as_maps value ++ (1 ∷ []))
      ≡ (ok value, 1 ∷ []))
    × (decode codec whole (encode codec whole value ++ (1 ∷ [])) ≡ ok value)
decode-encode_example =
    decode-encode codec as_maps whole value (1 ∷ []) (value-Fits as_maps)
      (value-Fits default_context)

decode_vec-failed_example :
    decode_vec codec (decode_uint codec w8) default_context (
      codec.write_array_len 2
      ++ (encode_items codec (encode_uint codec) default_context (5 ∷ []) ++ (0xc0 ∷ 1 ∷ [])))
    ≡ (err (with_part (element 1) (new (wrapped (from_nvre (type_mismatch null))))), 1 ∷ [])
decode_vec-failed_example =
    decode_vec-failed codec default_context (encode_uint codec) (decode_uint codec w8) (IsUint w8)
      (λ v more p. ap (map_err from_nvre) ((codec.uint w8).read-write v more p)) (5 ∷ []) 0
      (0xc0 ∷ 1 ∷ []) (1 ∷ []) _ (omega arith, tt) (omega arith) refl

none-refused_example :
    (decode_value codec
      (struct as_array (optional name_b (struct as_array inner) end))
      default_context
      (encode_value codec
          (struct as_array (optional name_b (struct as_array inner) end))
          default_context
          (none, tt)
        ++ [])).0
    ≡ err (new (not_enough_fields 1 0))
none-refused_example =
    none-refused codec default_context as_array as_array inner end name_b tt [] refl refl refl

omitted_last-panic_example :
    decode_value codec (struct as_array inner) as_maps (
      encode_header codec true 1
      ++ encode_fields codec (required name_a (uint w8) end) true as_maps (200, tt))
    ≡ (panic, [])
omitted_last-panic_example =
    omitted_last-panic codec as_maps as_array (required name_a (uint w8) end) (200, tt) name_b
      (vec (sint w16)) 1 refl (omega arith, omega arith, tt)
