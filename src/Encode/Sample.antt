-- ===== src/Encode/Sample.antt =====
-- A concrete `Codec`, every number in its widest form, for the witnesses.
use tarantool_module.Base.{
  ℕ, ◌-◌, ◌^◌, ◌<◌, ◌≤◌, ◌≡◌, ◌≢◌, refl, sym, ap, ◌∙◌, Bool, true, false, [], ◌∷◌, ◌++◌, length,
  take, drop, ltb, ◌==◌, if◌then◌else◌, arith, ==_self, ne→==_false, le→ltb_false, lt→ltb,
  take-append_length, drop-append_length, length-append,
}
use tarantool_module.Io.{Bytes, from_be}
use tarantool_module.Msgpack.Rmp.{str32}
use tarantool_module.Msgpack.Format.{be, length-be, from_be-be}
use tarantool_module.Sample.{from_u8, markers}
use tarantool_module.Encode.Reader.{ok, err, Reader, continue}
use tarantool_module.Encode.Rmp.{
  Codec, Form, ReadError, type_mismatch, invalid_data_read, invalid_marker_read, out_of_range, ℤ,
  pos, negsuc, Width, w8, w16, w32, w64, bits, IsSint, is_null, marker_null,
}

-- A marker byte and `k` bytes of a number below a bound
abbrev after_marker : ℕ → ℕ → ℕ → Reader ReadError ℕ
after_marker k bound b r =
    if ltb (length r) k
    then (err invalid_data_read, r)
    else (if ltb (from_be 0 (take k r)) bound
        then (ok (from_be 0 (take k r)), drop k r)
        else (err out_of_range, drop k r))

abbrev read_sized : ℕ → ℕ → ℕ → Reader ReadError ℕ
read_sized marker k bound [] = (err invalid_marker_read, [])
read_sized marker k bound (b ∷ r) =
    if b == marker then after_marker k bound b r else (err (type_mismatch (from_u8 b)), r)

abbrev write_sized : ℕ → ℕ → ℕ → Bytes
write_sized marker k n = marker ∷ be k n

pub read_sized-write :
    (marker k bound n : ℕ) (more : Bytes)
    → n < 256 ^ k
    → n < bound
    → read_sized marker k bound (write_sized marker k n ++ more) ≡ (ok n, more)
read_sized-write marker k bound n more h b =
    let l : ltb (length (be k n ++ more)) k ≡ false =
      ground (arith, length-append (be k n) more, length-be k n) in
    let t : take k (be k n ++ more) ≡ be k n =
      ap (λ i. take i (be k n ++ more)) (sym (length-be k n)) ∙ take-append_length (be k n) more in
    let d : drop k (be k n ++ more) ≡ more =
      ap (λ i. drop i (be k n ++ more)) (sym (length-be k n)) ∙ drop-append_length (be k n) more in
    rw (==_self marker, l, t, d, from_be-be k n h, lt→ltb n bound b) refl

abbrev sized :
    (marker k bound : ℕ)
    → marker ≢ marker_null
    → bound ≤ 256 ^ k
    → Form ℕ (λ n. n < bound) (write_sized marker k)
sized marker k bound m b = record {
  read = read_sized marker k bound;
  read-write = λ n more h. read_sized-write marker k bound n more (omega (arith, h, b)) h;
  write_marker = λ n. omega arith;
  write-not_null = λ n more h. ne→==_false marker marker_null m;
  read_null = λ more. rw (ne→==_false marker_null marker (λ e. m (sym e))) refl;
}

abbrev write_bool : Bool → Bytes
write_bool b = (if b then 0xc3 else 0xc2) ∷ []

abbrev read_bool : Reader ReadError Bool
read_bool [] = (err invalid_marker_read, [])
read_bool (b ∷ r) =
    if b == 0xc3
    then (ok true, r)
    else (if b == 0xc2 then (ok false, r) else (err (type_mismatch (from_u8 b)), r))

pub read_bool-write : (b : Bool) (more : Bytes) → read_bool (write_bool b ++ more) ≡ (ok b, more)
read_bool-write true more = refl
read_bool-write false more = refl

pub bool-not_null : (b : Bool) (more : Bytes) → is_null (write_bool b ++ more) ≡ false
bool-not_null true more = refl
bool-not_null false more = refl

-- A negative number by what it lacks to 2 ^ 64
abbrev to_word : ℤ → ℕ
to_word (pos n) = n
to_word (negsuc n) = 2 ^ 64 - 1 - n

abbrev of_word : ℕ → ℤ
of_word n = if ltb n (2 ^ 63) then pos n else negsuc (2 ^ 64 - 1 - n)

abbrev sint_of : Width → ℕ → Reader ReadError ℤ
sint_of w n r = (ok (of_word n), r)

abbrev write_sint : ℤ → Bytes
write_sint n = write_sized 0xd3 8 (to_word n)

pub uint_bound : (w : Width) → 2 ^ bits w ≤ 256 ^ 8
uint_bound w8 = omega arith
uint_bound w16 = omega arith
uint_bound w32 = omega arith
uint_bound w64 = omega arith

sint_bound : (w : Width) → 2 ^ (bits w - 1) ≤ 2 ^ 63
sint_bound w8 = omega arith
sint_bound w16 = omega arith
sint_bound w32 = omega arith
sint_bound w64 = omega arith

pub of_word-to_word : (w : Width) (n : ℤ) → IsSint w n → of_word (to_word n) ≡ n
of_word-to_word w (pos n) h = rw (lt→ltb n (2 ^ 63) (omega (arith, h, sint_bound w))) refl
of_word-to_word w (negsuc n) h =
    let l : n < 2 ^ 63 = omega (arith, h, sint_bound w) in
    rw (le→ltb_false (2 ^ 64 - 1 - n) (2 ^ 63) (omega arith)) (ap negsuc (omega arith))

pub to_word_bound : (w : Width) (n : ℤ) → IsSint w n → to_word n < 2 ^ 64
to_word_bound w (pos n) h = omega (arith, h, sint_bound w)
to_word_bound w (negsuc n) h = omega arith

abbrev read_sint : Width → Reader ReadError ℤ
read_sint w r = continue (sint_of w) (read_sized 0xd3 8 (2 ^ 64) r)

abbrev read_nil : Reader ReadError (Unit {0})
read_nil [] = (err invalid_marker_read, [])
read_nil (b ∷ r) = if b == marker_null then (ok tt, r) else (err (type_mismatch (from_u8 b)), r)

pub read_nil-not_null :
    (r : Bytes) → is_null r ≡ false → (e : ReadError) × (read_nil r ≡ (err e, drop 1 r))
read_nil-not_null [] h = (invalid_marker_read, refl)
read_nil-not_null (b ∷ r) h = (type_mismatch (from_u8 b), rw h refl)

abbrev pub codec : Codec
codec = record {
  markers = markers;
  write_bool = write_bool;
  write_uint = write_sized 0xcf 8;
  write_sint = write_sint;
  write_array_len = write_sized 0xdd 4;
  write_map_len = write_sized 0xdf 4;
  write_str_len = write_sized 0xdb 4;
  bool = record {
    read = read_bool;
    read-write = λ b more u. read_bool-write b more;
    write_marker = λ n. omega arith;
    write-not_null = λ b more u. bool-not_null b more;
    read_null = λ more. refl;
  };
  uint = λ w. sized 0xcf 8 (2 ^ bits w) (omega arith) (uint_bound w);
  sint = λ w. record {
    read = read_sint w;
    read-write = λ n more h.
        ap (continue (sint_of w)) (
          read_sized-write 0xd3 8 (2 ^ 64) (to_word n) more (omega (arith, to_word_bound w n h))
            (to_word_bound w n h))
        ∙ ap (λ z. (ok z, more)) (of_word-to_word w n h);
    write_marker = λ n. omega arith;
    write-not_null = λ n more h. refl;
    read_null = λ more. refl;
  };
  write_f32 = write_sized 0xca 4;
  write_f64 = write_sized 0xcb 8;
  float32 = sized 0xca 4 (2 ^ 32) (omega arith) (omega arith);
  float64 = sized 0xcb 8 (2 ^ 64) (omega arith) (omega arith);
  array_len = sized 0xdd 4 (2 ^ 32) (omega arith) (omega arith);
  map_len = sized 0xdf 4 (2 ^ 32) (omega arith) (omega arith);
  str_len = sized 0xdb 4 (2 ^ 32) (omega arith) (omega arith);
  read_nil = read_nil;
  read_nil-null = λ more. refl;
  read_nil-not_null = read_nil-not_null;
  str_header = λ n. str32;
  str_header-IsStrHeader = λ n h. refl;
  is_utf8 = λ s. true;
  encode_utf8 = λ c. c ∷ [];
  chars = λ s. s;
  chars-encode_utf8 = λ c h. (refl, refl, omega arith, omega arith);
}
