-- ===== src/Encode/Laws.antt =====
-- The claims on tarantool/src/msgpack/encode.rs and the derived code: the round trip, and errors.
use mathlib.Core.List.{append_assoc}
use tarantool_module.Base.{
  ℕ, suc, ◌+◌, ◌≡◌, refl, ap, Bool, true, false, List, [], ◌∷◌, ◌++◌, Option, none, some, length,
  arith, All,
}
use tarantool_module.Io.{Bytes}
use tarantool_module.Encode.{Context, default_context, is_as_map}
use tarantool_module.Encode.Reader.{ok, err, panic}
use tarantool_module.Encode.Rmp.{Codec, IsLen, marker_null}
use tarantool_module.Encode.Errors.{
  DecodeError, element, wrapped, not_enough_fields, new, with_part,
}
use tarantool_module.Encode.Std.{
  Encode, Decode, encode_items, decode_items, decode_vec, encode_option,
}
use tarantool_module.Encode.Derive.{encode_header, encode_field, decode_optional}
use tarantool_module.Encode.Types.{
  Args, Ty, struct, Fields, end, required, optional, Val, Vals, count, first_field_name,
  encode_value, encode_fields, decode_value, decode_fields, encode, decode,
}
use tarantool_module.Encode.Fits.{Fits, FitsAll}
use tarantool_module.Encode.Headers.{decode_header-encode}
use tarantool_module.Encode.Null.{decode-null}
use tarantool_module.Encode.Parts.{decode_required-encode, optional-encode}
use tarantool_module.Encode.RoundTrip.{decode_value-encode}

module _ (codec : Codec) where
  -- A value of any of the types, structs and enums and all that they contain included, is decoded from
  -- its own encoding, in any context and whatever bytes follow, which are left; and `decode` returns
  -- what `encode` was given. The hypothesis is that lengths fit 32 bits and numbers their types, that
  -- texts are UTF-8, that the keys of a map are in order, that no `Some` holds what is itself written
  -- as a nil, that a `None` in a field is of a type whose decoder reports a nil, and that no variant
  -- before the chosen one has its name, or in an untagged enum as many fields.
  pub decode-encode :
      (cx : Context) (t : Ty) (v : Val t) (more : Bytes)
      → Fits codec cx t v
      → Fits codec default_context t v
      → (decode_value codec t cx (encode_value codec t cx v ++ more) ≡ (ok v, more))
        × (decode codec t (encode codec t v ++ more) ≡ ok v)
  decode-encode cx t v more f g = (
    decode_value-encode codec cx t v more f,
    ap (λ o. o.0) (decode_value-encode codec default_context t v more g),
  )

  decode_items-failed :
      {A : Type 0} (cx : Context) (e : Encode A) (d : Decode A) (P : A → Type 0)
      → ((v : A) (more : Bytes) → P v → d cx (e cx v ++ more) ≡ (ok v, more))
      → (vs : List A) (others i n k : ℕ) (bad rest : Bytes) (error : DecodeError)
      → n ≡ length vs + suc others
      → k ≡ i + length vs
      → All P vs
      → d cx bad ≡ (err error, rest)
      → decode_items codec d n i cx (encode_items codec e cx vs ++ bad)
        ≡ (err (with_part (element k) (new (wrapped error))), rest)
  decode_items-failed cx e d P h [] others i n k bad rest error en ek p b =
      let m : n ≡ suc others = omega (arith, en) in
      let j : k ≡ i = omega (arith, ek) in rw (m, j, b) refl
  decode_items-failed cx e d P h (v ∷ vs) others i n k bad rest error en ek (p, ps) b =
      let m : n ≡ suc (length vs + suc others) = omega (arith, en) in
      rw
        (
          m,
          append_assoc (e cx v) (encode_items codec e cx vs) bad,
          h v (encode_items codec e cx vs ++ bad) p,
          decode_items-failed cx e d P h vs others (suc i) (length vs + suc others) k bad rest error
              refl (omega (arith, ek)) ps b,
        )
        refl

  -- If an element of a vector does not decode, where those before it were encoded, then decoding the
  -- vector is an error that wraps the element's and names its index, and the slice stands where the
  -- element's decoder left it.
  pub decode_vec-failed :
      {A : Type 0} (cx : Context) (e : Encode A) (d : Decode A) (P : A → Type 0)
      → ((v : A) (more : Bytes) → P v → d cx (e cx v ++ more) ≡ (ok v, more))
      → (vs : List A) (others : ℕ) (bad rest : Bytes) (error : DecodeError) → All P vs
      → IsLen (length vs + suc others)
      → d cx bad ≡ (err error, rest)
      → decode_vec codec d cx
          (codec.write_array_len (length vs + suc others) ++ (encode_items codec e cx vs ++ bad))
        ≡ (err (with_part (element (length vs)) (new (wrapped error))), rest)
  decode_vec-failed cx e d P h vs others bad rest error p l b =
      rw
        (
          codec.array_len.read-write (length vs + suc others) (encode_items codec e cx vs ++ bad) l,
          decode_items-failed cx e d P h vs others 0 (length vs + suc others) (length vs) bad rest
              error refl (omega arith) p b,
        )
        refl

  -- A struct whose first field is an `Option` of another struct is not decoded from its own encoding
  -- if that field is `None` and both are written as arrays, unless `allow_array_optionals` is given:
  -- the decoder says that there are not enough fields.
  pub none-refused :
      (cx : Context) (args inner_args : Args) (inner fs : Fields) (name : Bytes) (vs : Vals fs)
      (more : Bytes)
      → is_as_map cx args.as_map ≡ false
      → is_as_map cx inner_args.as_map ≡ false
      → args.allow_array_optionals ≡ false
      → (decode_value codec (struct args (optional name (struct inner_args inner) fs)) cx (
          encode_value codec
            (struct args (optional name (struct inner_args inner) fs))
            cx
            (none, vs)
          ++ more)).0
        ≡ err (new (not_enough_fields (suc (count fs)) (count fs)))
  none-refused cx args inner_args inner fs name vs more a b c =
      rw
        (
          a,
          c,
          append_assoc (encode_header codec false (suc (count fs)))
              (marker_null ∷ encode_fields codec fs false cx vs) more,
          decode_header-encode codec false name (suc (count fs))
              (marker_null ∷ (encode_fields codec fs false cx vs ++ more)),
          b,
          codec.array_len.read_null (encode_fields codec fs false cx vs ++ more),
        )
        refl

  abbrev pub with_last : Fields → Bytes → Ty → Fields
  with_last end name t = optional name t end
  with_last (required n u fs) name t = required n u (with_last fs name t)
  with_last (optional n u fs) name t = optional n u (with_last fs name t)

  decode_optional-encode :
      (cx : Context) (t : Ty) (o : Option (Val t)) (name more : Bytes) (allow as_map : Bool)
      (amount passed : ℕ)
      → FitsAll codec cx (optional name t end) (o, tt)
      → decode_optional codec
          (decode_value codec t)
          allow
          as_map
          amount
          passed
          name
          cx
          (encode_field codec (encode_option codec (encode_value codec t)) as_map name cx o ++ more)
        ≡ (ok o, more)
  decode_optional-encode cx t none name more allow as_map amount passed (l, n, _) =
      rw
        (
          optional-encode codec cx (encode_value codec t) (decode_value codec t) as_map name more
              none allow amount passed l,
          decode-null codec cx t more n,
        )
        refl
  decode_optional-encode cx t (some v) name more allow as_map amount passed (l, f, _) =
      rw
        (
          optional-encode codec cx (encode_value codec t) (decode_value codec t) as_map name more
              (some v) allow amount passed l,
          decode_value-encode codec cx t v more f,
        )
        refl

  decode_fields-panic :
      (cx : Context) (fs : Fields) (vs : Vals fs) (name : Bytes) (t : Ty) (allow : Bool)
      (amount : ℕ)
      → FitsAll codec cx fs vs
      → decode_fields codec
          (with_last fs name t)
          allow
          true
          amount
          cx
          (encode_fields codec fs true cx vs)
        ≡ (panic, [])
  decode_fields-panic cx end vs name t allow amount f = refl
  decode_fields-panic cx (required n u fs) (v, vs) name t allow amount (l, f, g) =
      rw
        (
          decode_required-encode codec cx (encode_value codec u) (decode_value codec u) true n
              (encode_fields codec fs true cx vs) v l
              (decode_value-encode codec cx u v (encode_fields codec fs true cx vs) f),
          decode_fields-panic cx fs vs name t allow amount g,
        )
        refl
  decode_fields-panic cx (optional n u fs) (none, vs) name t allow amount (l, f, g) =
      rw
        (
          decode_optional-encode cx u none n (encode_fields codec fs true cx vs) allow true amount
              (count (with_last fs name t)) (l, f, tt),
          decode_fields-panic cx fs vs name t allow amount g,
        )
        refl
  decode_fields-panic cx (optional n u fs) (some v, vs) name t allow amount (l, f, g) =
      rw
        (
          decode_optional-encode cx u (some v) n (encode_fields codec fs true cx vs) allow true
              amount (count (with_last fs name t)) (l, f, tt),
          decode_fields-panic cx fs vs name t allow amount g,
        )
        refl

  -- The last field of a struct may be an `Option` and left out where the struct is read from a map:
  -- if the slice ends with that map, then decoding it panics, whatever the other fields hold.
  pub omitted_last-panic :
      (cx : Context) (args : Args) (fs : Fields) (vs : Vals fs) (name : Bytes) (t : Ty) (n : ℕ)
      → is_as_map cx args.as_map ≡ true
      → FitsAll codec cx fs vs
      → decode_value codec
          (struct args (with_last fs name t))
          cx
          (encode_header codec true n ++ encode_fields codec fs true cx vs)
        ≡ (panic, [])
  omitted_last-panic cx args fs vs name t n a f =
      rw
        (
          a,
          decode_header-encode codec true (first_field_name (with_last fs name t)) n
              (encode_fields codec fs true cx vs),
          decode_fields-panic cx fs vs name t args.allow_array_optionals
              (count (with_last fs name t)) f,
        )
        refl
