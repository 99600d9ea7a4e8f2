-- ===== src/Msgpack/Preserve.antt =====
-- `preserve_read` of tarantool/src/msgpack.rs, which takes one value off a slice. An index outside the
-- slice panics.
use mathlib.Core.Path.{ap₂}
use tarantool_module.Base.{
  ℕ, zero, suc, ◌+◌, ◌*◌, ◌%◌, ◌^◌, ◌<◌, ◌≡◌, refl, ap, ◌∙◌, length, ltb, leb, ◌&&◌, if◌then◌else◌,
  [], ◌∷◌, ◌++◌, take, drop, Bool, true, false, drop-append_length, lt→ltb, le→leb, arith,
  length-append,
}
use tarantool_module.Io.{
  Bytes, Result, ok, err, ◌>>=◌, type_mismatch, out_of_fuel, panic, unexpected_eof, from_be,
}
use tarantool_module.Msgpack.Format.{fixed, shape}
use tarantool_module.Msgpack.Rmp.{
  Marker, Markers, IsMarker, fix_pos, fix_neg, null, u8, u16, u32, u64, i8, i16, i32, i64, f32, f64,
  fix_str, str8, str16, str32, bin8, bin16, bin32, fix_array, array16, array32, fix_map, map16,
  map32, fix_ext1, fix_ext2, fix_ext4, fix_ext8, fix_ext16, ext8, ext16, ext32, reserved,
}

-- `into.extend_from_slice(&from[..=n])`, then `from = &from[k..]`
pub take_to : ℕ → ℕ → Bytes → Result (Bytes × Bytes)
take_to n k from =
    if ltb n (length from) && leb k (length from)
    then ok (take (suc n) from, drop k from)
    else err panic

-- `slice_read_be_to!` of a `w`-byte number: the number, its bytes, and the rest
pub slice_read_be_to : ℕ → Bytes → Result (ℕ × Bytes × Bytes)
slice_read_be_to w from =
    if ltb (length from) w
    then err unexpected_eof
    else ok (from_be 0 (take w from), take w from, drop w from)

-- `for _ in 0..n { into.extend_from_slice(&preserve_read(from)?); }`
pub preserve_times : (Bytes → Result (Bytes × Bytes)) → ℕ → Bytes → Result (Bytes × Bytes)
preserve_times preserve zero from = ok ([], from)
preserve_times preserve (suc n) from = do
  (bs, from1) ← preserve from
  (more, from2) ← preserve_times preserve n from1
  ok (bs ++ more, from2)

-- Strings and binaries with a length in `w` bytes; `len + 1` wraps at that width.
pub preserve_len : ℕ → Bytes → Result (Bytes × Bytes)
unfolding take_to slice_read_be_to
preserve_len w from = do
  (len, buf, from1) ← slice_read_be_to w from
  (bs, from2) ← take_to len ((len + 1) % 2 ^ (8 * w)) from1
  ok (buf ++ bs, from2)

pub preserve_ext : ℕ → Bytes → Result (Bytes × Bytes)
unfolding take_to slice_read_be_to
preserve_ext w from = do
  (len, buf, from1) ← slice_read_be_to w from
  (bs, from2) ← take_to (len + 1) (len + 1) from1
  ok (buf ++ bs, from2)

-- Arrays and maps with a count in `w` bytes; `times` is 2 for a map. The product wraps at the width.
pub preserve_items : (Bytes → Result (Bytes × Bytes)) → ℕ → ℕ → Bytes → Result (Bytes × Bytes)
unfolding slice_read_be_to preserve_times
preserve_items preserve w times from = do
  (len, buf, from1) ← slice_read_be_to w from
  (bs, from2) ← preserve_times preserve (len * times % 2 ^ (8 * w)) from1
  ok (buf ++ bs, from2)

pub preserve_inline : (Bytes → Result (Bytes × Bytes)) → ℕ → Bytes → Result (Bytes × Bytes)
unfolding take_to preserve_times
preserve_inline preserve len from = do
  (b, from1) ← take_to 0 1 from
  (bs, from2) ← preserve_times preserve len from1
  ok (b ++ bs, from2)

-- The match of `preserve_read`
pub preserve_payload : (Bytes → Result (Bytes × Bytes)) → Marker → Bytes → Result (Bytes × Bytes)
unfolding take_to preserve_len preserve_ext preserve_items preserve_inline
preserve_payload preserve (fix_pos _) from = take_to 0 1 from
preserve_payload preserve (fix_neg _) from = take_to 0 1 from
preserve_payload preserve null from = take_to 0 1 from
preserve_payload preserve Marker.true from = take_to 0 1 from
preserve_payload preserve Marker.false from = take_to 0 1 from
preserve_payload preserve u8 from = take_to 1 1 from
preserve_payload preserve i8 from = take_to 1 1 from
preserve_payload preserve u16 from = take_to 2 2 from
preserve_payload preserve i16 from = take_to 2 2 from
preserve_payload preserve u32 from = take_to 4 4 from
preserve_payload preserve i32 from = take_to 4 4 from
preserve_payload preserve f32 from = take_to 4 4 from
preserve_payload preserve u64 from = take_to 8 8 from
preserve_payload preserve i64 from = take_to 8 8 from
preserve_payload preserve f64 from = take_to 8 8 from
preserve_payload preserve (fix_str len) from = take_to len (len + 1) from
preserve_payload preserve str8 from = preserve_len 1 from
preserve_payload preserve bin8 from = preserve_len 1 from
preserve_payload preserve str16 from = preserve_len 2 from
preserve_payload preserve bin16 from = preserve_len 2 from
preserve_payload preserve str32 from = preserve_len 4 from
preserve_payload preserve bin32 from = preserve_len 4 from
preserve_payload preserve (fix_array len) from = preserve_inline preserve len from
preserve_payload preserve array16 from = preserve_items preserve 2 1 from
preserve_payload preserve array32 from = preserve_items preserve 4 1 from
preserve_payload preserve (fix_map len) from = preserve_inline preserve (len * 2 % 2 ^ 8) from
preserve_payload preserve map16 from = preserve_items preserve 2 2 from
preserve_payload preserve map32 from = preserve_items preserve 4 2 from
preserve_payload preserve fix_ext1 from = take_to 2 2 from
preserve_payload preserve fix_ext2 from = take_to 3 3 from
preserve_payload preserve fix_ext4 from = take_to 5 5 from
preserve_payload preserve fix_ext8 from = take_to 9 9 from
preserve_payload preserve fix_ext16 from = take_to 17 17 from
preserve_payload preserve ext8 from = preserve_ext 1 from
preserve_payload preserve ext16 from = preserve_ext 2 from
preserve_payload preserve ext32 from = preserve_ext 4 from
preserve_payload preserve reserved from = err type_mismatch

module _ (rmp : Markers) where
  -- The fuel bounds the depth of the recursion; each level has read a byte at least.
  pub preserve_fuel : ℕ → Bytes → Result (Bytes × Bytes)
  unfolding preserve_payload
  preserve_fuel zero from = err out_of_fuel
  preserve_fuel (suc fuel) [] = err panic
  preserve_fuel (suc fuel) (b ∷ bs) = preserve_payload (preserve_fuel fuel) (rmp.from_u8 b) (b ∷ bs)

  pub preserve_read : Bytes → Result (Bytes × Bytes)
  unfolding preserve_fuel
  preserve_read from = preserve_fuel (suc (length from)) from

abbrev pub is_fix_str : Marker → Bool
is_fix_str (fix_str _) = true
is_fix_str _ = false

preserve_payload-fixed :
    (preserve : Bytes → Result (Bytes × Bytes)) (m : Marker) (k : ℕ) (from : Bytes)
    → shape m ≡ fixed (suc k)
    → is_fix_str m ≡ false
    → preserve_payload preserve m from ≡ take_to (suc k) (suc k) from
unfolding preserve_payload
preserve_payload-fixed preserve m k from h n = ground arith

take-behind :
    (bs : Bytes) (x : ℕ) (more : Bytes) → take (suc (length bs)) (bs ++ (x ∷ more)) ≡ bs ++ (x ∷ [])
take-behind [] x more = refl
take-behind (b ∷ bs) x more = ap (◌∷◌ b) (take-behind bs x more)

take_to-last :
    (b x : ℕ) (bs more : Bytes)
    → take_to (suc (length bs)) (suc (length bs)) (b ∷ (bs ++ (x ∷ more)))
      ≡ ok (b ∷ (bs ++ (x ∷ [])), x ∷ more)
unfolding take_to
take_to-last b x bs more =
    let n : ℕ = suc (length bs) in
    let from : Bytes = b ∷ (bs ++ (x ∷ more)) in
    let enough : n < length from = omega (arith, length-append bs (x ∷ more)) in
    rw (lt→ltb n (length from) enough, le→leb n (length from) (omega (arith, enough)))
      (ap₂ (λ t d. ok (b ∷ t, d)) (take-behind bs x more) (drop-append_length bs (x ∷ more)))

-- A number of one byte or more, or an extension of fixed size: the bytes that are returned are
-- right, but the last one is left in the slice, where the next read takes it for a marker.
pub preserve_read-fixed :
    (rmp : Markers) (m : Marker) (bs : Bytes) (x : ℕ) (more : Bytes)
    → IsMarker m
    → shape m ≡ fixed (suc (length bs))
    → is_fix_str m ≡ false
    → preserve_read rmp (rmp.to_u8 m ∷ (bs ++ (x ∷ more)))
      ≡ ok (rmp.to_u8 m ∷ (bs ++ (x ∷ [])), x ∷ more)
unfolding preserve_read preserve_fuel
preserve_read-fixed rmp m bs x more marker h n =
    let from : Bytes = rmp.to_u8 m ∷ (bs ++ (x ∷ more)) in
    ap (λ k. preserve_payload (preserve_fuel rmp (length from)) k from) (rmp.from_u8-to_u8 m marker)
    ∙ preserve_payload-fixed (preserve_fuel rmp (length from)) m (length bs) from h n
    ∙ take_to-last (rmp.to_u8 m) x bs more
