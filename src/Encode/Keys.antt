-- ===== src/Encode/Keys.antt =====
-- The keys of a struct that is written as a map, read back.
use mathlib.Core.List.{append_assoc}
use mathlib.Core.Path.{subst}
use tarantool_module.Base.{
  ℕ, suc, ◌+◌, ◌≡◌, refl, ap, ◌∙◌, Bool, true, false, ◌∷◌, ◌++◌, length, leb, arith, length-append,
  take-append_length, drop-append_length,
}
use tarantool_module.Io.{Bytes}
use tarantool_module.Msgpack.Rmp.{Marker, fix_str, str8, str16, str32}
use tarantool_module.Msgpack.Format.{be}
use tarantool_module.Encode.Reader.{ok}
use tarantool_module.Encode.Rmp.{Codec, IsLen, IsStrHeader}
use tarantool_module.Encode.Std.{write_str}
use tarantool_module.Encode.Derive.{str_bounds, bounds_at, behind, read_key, try_key, write_key}
use tarantool_module.Encode.Fits.{bytes_eq_self, leb_append, drop-take_middle}

module _ (codec : Codec) where
  -- A header with the length behind its marker
  bounds_sized :
      (n k : ℕ) (m : Marker) (bs rest : Bytes)
      → IsLen n
      → codec.write_str_len n ≡ codec.to_u8 m ∷ bs
      → codec.from_u8 (codec.to_u8 m) ≡ m
      → ((r : Bytes) → bounds_at codec m r ≡ behind codec k (codec.str_len.read r))
      → suc (length bs) ≡ k
      → str_bounds codec (codec.write_str_len n ++ rest) ≡ ok (k, n + k)
  bounds_sized n k m bs rest h w e b l =
      let r : codec.str_len.read (codec.to_u8 m ∷ (bs ++ rest)) ≡ (ok n, rest) =
        subst (λ x. codec.str_len.read (x ++ rest) ≡ (ok n, rest)) w
          (codec.str_len.read-write n rest h) in
      rw (w, e, b (codec.to_u8 m ∷ (bs ++ rest)), r) refl

  -- The bounds of a string of `n` bytes, whose header is one of the four forms
  bounds_form :
      (n : ℕ) (m : Marker) (rest : Bytes)
      → IsLen n
      → IsStrHeader codec.to_u8 n m (codec.write_str_len n)
      → str_bounds codec (codec.write_str_len n ++ rest)
        ≡ ok (length (codec.write_str_len n), n + length (codec.write_str_len n))
  bounds_form n (fix_str k) rest h (e, l, w) = rw (w, codec.from_u8-to_u8 (fix_str n) l) refl
  bounds_form n str8 rest h (l, w) =
      bounds_sized n 2 str8 (be 1 n) rest h w (codec.from_u8-to_u8 str8 tt) (λ r. refl) refl
      ∙ rw w refl
  bounds_form n str16 rest h (l, w) =
      bounds_sized n 3 str16 (be 2 n) rest h w (codec.from_u8-to_u8 str16 tt) (λ r. refl) refl
      ∙ rw w refl
  bounds_form n str32 rest h w =
      bounds_sized n 5 str32 (be 4 n) rest h w (codec.from_u8-to_u8 str32 tt) (λ r. refl) refl
      ∙ rw w refl
  bounds_form n _ rest h w = absurd w

  module _ (name more : Bytes) (h : IsLen (length name)) where
    pub read_key-write :
        (as_map : Bool)
        → read_key codec as_map name (write_key codec as_map name ++ more) ≡ (ok tt, more)
    read_key-write false = refl
    read_key-write true =
        let e : codec.str_len.read (write_str codec name ++ more)
            ≡ (ok (length name), name ++ more) =
          ap codec.str_len.read (append_assoc (codec.write_str_len (length name)) name more)
          ∙ codec.str_len.read-write (length name) (name ++ more) h in
        rw
          (
            e,
            leb_append name more,
            take-append_length name more,
            drop-append_length name more,
            bytes_eq_self name,
          )
          refl

    pub try_key-write :
        (as_map : Bool)
        → try_key codec as_map name (write_key codec as_map name ++ more) ≡ (ok false, more)
    try_key-write false = refl
    try_key-write true =
        let w = codec.write_str_len (length name) in
        let a : write_str codec name ++ more ≡ w ++ (name ++ more) = append_assoc w name more in
        let b =
          bounds_form (length name) (codec.str_header (length name)) (name ++ more) h
            (codec.str_header-IsStrHeader (length name) h) in
        let l : leb (length name + length w) (length (w ++ (name ++ more))) ≡ true =
          ground (arith, length-append w (name ++ more), length-append name more) in
        rw
          (
            a,
            b,
            l,
            drop-take_middle w name more,
            bytes_eq_self name,
            codec.str_len.read-write (length name) (name ++ more) h,
            leb_append name more,
            drop-append_length name more,
          )
          refl
