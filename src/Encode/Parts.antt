-- ===== src/Encode/Parts.antt =====
-- The parts of a value that are read back if what they hold is.
use mathlib.Core.List.{append_assoc}
use tarantool_module.Base.{
  ℕ, suc, ◌≡◌, refl, Bool, List, [], ◌∷◌, ◌++◌, Option, length, arith, All, ne→==_false,
  le→ltb_false,
}
use tarantool_module.Io.{Bytes}
use tarantool_module.Encode.{Context}
use tarantool_module.Encode.Reader.{ok}
use tarantool_module.Encode.Rmp.{Codec, IsLen, IsChar}
use tarantool_module.Encode.Std.{
  Encode, Decode, encode_string, decode_string, encode_option, encode_items, decode_items,
  encode_char, decode_char,
}
use tarantool_module.Encode.Derive.{
  encode_field, decode_required, decode_optional, write_key, keep_or_fail,
}
use tarantool_module.Encode.Fits.{IsText, read_exact-append}
use tarantool_module.Encode.Headers.{char-IsLen}
use tarantool_module.Encode.Keys.{read_key-write, try_key-write}

module _ (codec : Codec) (cx : Context) where
  pub decode_char-encode :
      (c : ℕ) (more : Bytes)
      → IsChar c
      → decode_char codec cx (encode_char codec cx c ++ more) ≡ (ok c, more)
  decode_char-encode c more h =
      let laws = codec.chars-encode_utf8 c h in
      let s = codec.encode_utf8 c in
      rw
        (
          append_assoc (codec.write_str_len (length s)) s more,
          codec.str_len.read-write (length s) (s ++ more) (char-IsLen codec c h),
          ne→==_false (length s) 0 (omega (arith, laws.2)),
          le→ltb_false 4 (length s) (omega (arith, laws.3)),
          read_exact-append s more,
          laws.0,
          laws.1,
        )
        refl

  -- A field whose contents are read back as they were written
  module _ {A : Type 0} (e : Encode A) (d : Decode A) (as_map : Bool) (name : Bytes)
      (more : Bytes) where
    pub decode_required-encode :
        (v : A)
        → IsLen (length name)
        → d cx (e cx v ++ more) ≡ (ok v, more)
        → decode_required codec d as_map name cx (encode_field codec e as_map name cx v ++ more)
          ≡ (ok v, more)
    decode_required-encode v l h =
        rw
          (
            append_assoc (write_key codec as_map name) (e cx v) more,
            read_key-write codec name (e cx v ++ more) l as_map,
            h,
          )
          refl

    -- Whatever an optional field's contents give decides on the field.
    pub optional-encode :
        (o : Option A) (allow : Bool) (amount passed : ℕ)
        → IsLen (length name)
        → decode_optional codec d allow as_map amount passed name cx
            (encode_field codec (encode_option codec e) as_map name cx o ++ more)
          ≡ keep_or_fail codec allow as_map amount passed
              (d cx (encode_option codec e cx o ++ more))
    optional-encode o allow amount passed l =
        rw
          (
            append_assoc (write_key codec as_map name) (encode_option codec e cx o) more,
            try_key-write codec name (encode_option codec e cx o ++ more) l as_map,
          )
          refl

  -- The loop over elements, for any implementation that reads back what it wrote
  pub decode_items-encode :
      {A : Type 0} (e : Encode A) (d : Decode A) (P : A → Type 0)
      → ((v : A) (more : Bytes) → P v → d cx (e cx v ++ more) ≡ (ok v, more))
      → (vs : List A) (i : ℕ) (more : Bytes) → All P vs
      → decode_items codec d (length vs) i cx (encode_items codec e cx vs ++ more) ≡ (ok vs, more)
  decode_items-encode e d P h [] i more p = refl
  decode_items-encode e d P h (v ∷ vs) i more (p, ps) =
      let a = append_assoc (e cx v) (encode_items codec e cx vs) more in
      rw
        (
          a,
          h v (encode_items codec e cx vs ++ more) p,
          decode_items-encode e d P h vs (suc i) more ps,
        )
        refl

  pub decode_string-encode :
      (s more : Bytes)
      → IsText codec cx s
      → decode_string codec cx (encode_string codec cx s ++ more) ≡ (ok s, more)
  decode_string-encode s more (l, u) =
      rw
        (
          append_assoc (codec.write_str_len (length s)) s more,
          codec.str_len.read-write (length s) (s ++ more) l,
          read_exact-append s more,
          u,
        )
        refl
