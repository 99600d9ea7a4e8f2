-- ===== src/Msgpack/Skip.antt =====
-- `skip_value` of tarantool/src/msgpack.rs: it passes exactly one value, stays in the buffer and
-- ends on every input.
use tarantool_module.Base.{
  ℕ, zero, suc, ◌+◌, ◌-◌, ◌*◌, ◌/◌, ◌%◌, ◌^◌, ◌≤◌, ◌<◌, ◌≡◌, refl, sym, ap, ◌∙◌, [], ◌∷◌, ◌++◌,
  arith, length, length-append,
}
use mathlib.Core.List.{append_assoc}
use native.Mathlib.Nat.{pow-suc, mod-eq_of_lt}
use native.Mathlib.Numerals.{towards_suc}
use tarantool_module.Io.{Bytes, Cursor, Result, ok, err, type_mismatch, advance, rest, read_exact}
use tarantool_module.Io.Reads.{rest-advance_prefix, read_exact_prefix, advance-advance, length-rest}
use tarantool_module.Msgpack.Rmp.{Marker, Markers, IsMarker, fix_pos, fix_neg, null, fix_map}
use tarantool_module.Msgpack.{
  read_be, skip_times, skip_len, skip_items, skip_payload, check_end, skip_value_inner, skip_fuel,
  skip_value,
}
use tarantool_module.Msgpack.Format.{
  Shape, shape, fixed, sized, inline, counted, invalid, be, length-be, from_be-be, Value, Items,
  leaf, group, nil, cons, count, head, Fits, Holds, encode, encode_items, IsValid, IsValidItems,
}

-- What the match does, by the shape of the marker.
skip_shape : (Cursor → Result Cursor) → Shape → Cursor → Result Cursor
skip_shape skip (fixed n) c = ok (advance n c)
skip_shape skip (sized w extra) c = skip_len w extra c
skip_shape skip (inline n) c = skip_times skip n c
skip_shape skip (counted w times) c = skip_items skip w times c
skip_shape skip invalid c = err type_mismatch

advance_zero : (c : Cursor) → ok c ≡ ok (advance 0 c)
advance_zero c = ap (λ p. ok (record c { pos = p })) (omega arith)

skip_payload-eq-shape :
    (skip : Cursor → Result Cursor) (m : Marker) (c : Cursor)
    → IsMarker m
    → skip_payload skip m c ≡ skip_shape skip (shape m) c
unfolding skip_payload skip_shape
skip_payload-eq-shape skip (fix_pos _) c h = advance_zero c
skip_payload-eq-shape skip (fix_neg _) c h = advance_zero c
skip_payload-eq-shape skip null c h = advance_zero c
skip_payload-eq-shape skip Marker.true c h = advance_zero c
skip_payload-eq-shape skip Marker.false c h = advance_zero c
skip_payload-eq-shape skip (fix_map n) c h = ap (λ k. skip_times skip k c) (omega arith)
skip_payload-eq-shape skip m c h = refl

read_be-be :
    (w n : ℕ) (c : Cursor) (more : Bytes)
    → n < 256 ^ w
    → rest c ≡ be w n ++ more
    → read_be w c ≡ ok (n, advance w c)
unfolding read_be
read_be-be w n c more h e =
    let step : read_exact w c ≡ ok (be w n, advance w c) =
      rw (length-be w n) at (read_exact_prefix c (be w n) more e) in
    rw (step, from_be-be w n h)

rest-be :
    (w n : ℕ) (c : Cursor) (more : Bytes) → rest c ≡ be w n ++ more → rest (advance w c) ≡ more
rest-be w n c more e = rw (length-be w n) at (rest-advance_prefix c (be w n) more e)

skip_leaf :
    (skip : Cursor → Result Cursor) (s : Shape) (bs : Bytes) (c : Cursor) (more : Bytes)
    → Fits s (length bs)
    → rest c ≡ head s (length bs) ++ (bs ++ more)
    → skip_shape skip s c ≡ ok (advance (length (head s (length bs) ++ bs)) c)
unfolding skip_shape skip_len
skip_leaf skip (fixed n) bs c more h e = ap (λ k. ok (advance k c)) (sym h)
skip_leaf skip (sized w extra) bs c more h e =
    rw (read_be-be w (length bs - extra) c (bs ++ more) h.1 e) (
      rw (advance-advance w (length bs - extra + extra) c) (
        ap (λ k. ok (advance k c))
          (omega
            (arith, length-append (be w (length bs - extra)) bs, length-be w (length bs - extra)))))
skip_leaf skip (inline n) bs c more h e = absurd h
skip_leaf skip (counted w times) bs c more h e = absurd h
skip_leaf skip invalid bs c more h e = absurd h

eight_more : (w : ℕ) → 8 * suc w ≡ 8 * w + 8
eight_more w = omega arith

shift_eight : (s : ℕ) → 2 ^ (s + 8) ≡ 256 * 2 ^ s
shift_eight s = simp towards_suc (omega arith)

two_pow : (w : ℕ) → 2 ^ (8 * w) ≡ 256 ^ w
two_pow zero = refl
two_pow (suc w) =
    omega (arith, ap (λ k. 2 ^ k) (eight_more w), shift_eight (8 * w), pow-suc 256 w, two_pow w)

quotient_lt : (k t m : ℕ) → k < m → k / t < m
quotient_lt k t m h = grind arith

wrap_none : (w n : ℕ) → n < 256 ^ w → n % 2 ^ (8 * w) ≡ n
wrap_none w n h = rw (two_pow w) (mod-eq_of_lt h)

skip_group :
    (skip : Cursor → Result Cursor) (s : Shape) (k : ℕ) (bs : Bytes) (c : Cursor) (more : Bytes)
    → Holds s k
    → rest c ≡ head s k ++ (bs ++ more)
    → ((c' : Cursor) → rest c' ≡ bs ++ more → skip_times skip k c' ≡ ok (advance (length bs) c'))
    → skip_shape skip s c ≡ ok (advance (length (head s k ++ bs)) c)
unfolding skip_shape skip_items
skip_group skip (fixed n) k bs c more h e all = absurd h
skip_group skip (sized w extra) k bs c more h e all = absurd h
skip_group skip (inline n) k bs c more h e all = rw (← h) (all c e)
skip_group skip (counted w times) k bs c more h e all =
    rw (read_be-be w (k / times) c (bs ++ more) (quotient_lt k times (256 ^ w) h.1) e) (
      rw (wrap_none w (k / times * times) (rw h.0 h.1)) (
        rw h.0 (
          rw (all (advance w c) (rest-be w (k / times) c (bs ++ more) e)) (
            rw (advance-advance w (length bs) c) (
              ap (λ k. ok (advance k c))
                (omega (arith, length-append (be w (k / times)) bs, length-be w (k / times))))))))
skip_group skip invalid k bs c more h e all = absurd h

skip_none : (skip : Cursor → Result Cursor) (c : Cursor) → skip_times skip 0 c ≡ ok (advance 0 c)
unfolding skip_times
skip_none skip c = advance_zero c

skip_more :
    (skip : Cursor → Result Cursor) (k : ℕ) (c : Cursor) (xs ys : Bytes)
    → skip c ≡ ok (advance (length xs) c)
    → skip_times skip k (advance (length xs) c) ≡ ok (advance (length ys) (advance (length xs) c))
    → skip_times skip (suc k) c ≡ ok (advance (length (xs ++ ys)) c)
unfolding skip_times
skip_more skip k c xs ys one all =
    rw (one, all, advance-advance (length xs) (length ys) c) (rw (length-append xs ys))

module _ (rmp : Markers) where
  open rmp use {to_u8, read_marker, from_u8-to_u8, read_marker_byte, read_marker_end}

  check_end-within :
      (n : ℕ) (c : Cursor) → c.pos + n ≤ length c.bytes → check_end (advance n c) ≡ ok (advance n c)
  unfolding check_end
  check_end-within n c h = ground arith

  -- A cursor that has bytes left has that many before its end.
  pub within :
      (c : Cursor) (bs more : Bytes)
      → rest c ≡ bs ++ more
      → 0 < length bs
      → c.pos + length bs ≤ length c.bytes
  within c bs more e h = omega (arith, length-rest c, ap length e, length-append bs more)

  -- One round, from what the match does behind the marker.
  skip_round :
      (fuel : ℕ) (m : Marker) (bs more : Bytes) (c : Cursor)
      → IsMarker m
      → rest c ≡ to_u8 m ∷ (bs ++ more)
      → skip_shape (skip_fuel rmp fuel) (shape m) (advance 1 c)
        ≡ ok (advance (length bs) (advance 1 c))
      → skip_fuel rmp (suc fuel) c ≡ ok (advance (suc (length bs)) c)
  unfolding skip_fuel skip_value_inner
  skip_round fuel m bs more c h e step =
      rw (read_marker_byte c (to_u8 m) (bs ++ more) e, from_u8-to_u8 m h)
        (rw (skip_payload-eq-shape (skip_fuel rmp fuel) m (advance 1 c) h)
          (rw step (ground (arith, within c (to_u8 m ∷ bs) more e))))

  pub encode-pos : (v : Value) → 0 < length (encode to_u8 v)
  encode-pos (leaf m bs) = omega arith
  encode-pos (group m vs) = omega arith

  mutual
    skip-encode :
        (v : Value) (fuel : ℕ) (c : Cursor) (more : Bytes)
        → IsValid v
        → rest c ≡ encode to_u8 v ++ more
        → length (encode to_u8 v) ≤ suc fuel
        → skip_fuel rmp (suc fuel) c ≡ ok (advance (length (encode to_u8 v)) c)
    skip-encode (leaf m bs) fuel c more h e f =
        skip_round fuel m (head (shape m) (length bs) ++ bs) more c h.0 e (
          skip_leaf _ (shape m) bs (advance 1 c) more h.1
            (rw append_assoc at (rest-advance_prefix c (to_u8 m ∷ []) _ e)))
    skip-encode (group m vs) fuel c more h e f =
        skip_round fuel m (head (shape m) (count vs) ++ encode_items to_u8 vs) more c h.0 e (
          skip_group _ (shape m) (count vs) (encode_items to_u8 vs) (advance 1 c) more h.1
            (rw append_assoc at (rest-advance_prefix c (to_u8 m ∷ []) _ e))
            λ c' e'.
              skip-encode_items vs fuel c' more h.2 e'
                (omega (arith, length-append (head (shape m) (count vs)) (encode_items to_u8 vs))))

    skip-encode_items :
        (vs : Items) (fuel : ℕ) (c : Cursor) (more : Bytes)
        → IsValidItems vs
        → rest c ≡ encode_items to_u8 vs ++ more
        → length (encode_items to_u8 vs) ≤ fuel
        → skip_times (skip_fuel rmp fuel) (count vs) c
          ≡ ok (advance (length (encode_items to_u8 vs)) c)
    skip-encode_items nil fuel c more h e f = skip_none (skip_fuel rmp fuel) c
    skip-encode_items (cons v vs) fuel c more h e f =
        let e' : rest c ≡ encode to_u8 v ++ (encode_items to_u8 vs ++ more) =
          rw append_assoc at e in
        let long = length-append (encode to_u8 v) (encode_items to_u8 vs) in
        let full : fuel ≡ suc (fuel - 1) = omega (arith, encode-pos v) in
        skip_more (skip_fuel rmp fuel) (count vs) c (encode to_u8 v) (encode_items to_u8 vs)
          (ap (λ k. skip_fuel rmp k c) full
            ∙ skip-encode v (fuel - 1) c (encode_items to_u8 vs ++ more) h.0 e' (omega arith))
          (skip-encode_items vs fuel (advance (length (encode to_u8 v)) c) more h.1
            (rest-advance_prefix c (encode to_u8 v) (encode_items to_u8 vs ++ more) e')
            (omega (arith, encode-pos v)))

  -- Before an encoded value, whatever stands behind it, `skip_value` passes that value and no more:
  -- scalars, strings, binaries, extensions, and arrays and maps at any depth. The hypothesis is
  -- that lengths and counts fit their width, a map's count also when doubled.
  pub skip_value-encode :
      (v : Value) (c : Cursor) (more : Bytes)
      → IsValid v
      → rest c ≡ encode to_u8 v ++ more
      → skip_value rmp c ≡ ok (advance (length (encode to_u8 v)) c)
  unfolding skip_value
  skip_value-encode v c more h e =
      skip-encode v (length c.bytes) c more h e
        (omega (arith, within c (encode to_u8 v) more e (encode-pos v)))
