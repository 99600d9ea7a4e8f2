-- ===== src/Msgpack/Total.antt =====
-- `skip_value` of tarantool/src/msgpack.rs on any input: it ends, and stays inside the buffer.
use tarantool_module.Base.{
  ◌⊎◌, ℕ, zero, suc, ◌-◌, ◌*◌, ◌%◌, ◌^◌, ◌≤◌, ◌<◌, ◌≡◌, ◌≢◌, refl, ap, ◌∙◌, [], ◌∷◌, arith, length,
  take, ltb, Bool-cases, inl, inr,
}
use tarantool_module.Io.{
  Bytes, Cursor, Result, ok, err, ◌>>=◌, unexpected_eof, out_of_fuel, advance, rest, read_exact,
  from_be,
}
use tarantool_module.Io.Reads.{length-rest}
use tarantool_module.Msgpack.Rmp.{
  Marker, Markers, str8, str16, str32, bin8, bin16, bin32, fix_array, array16, array32, fix_map,
  map16, map32, ext8, ext16, ext32, reserved,
}
use tarantool_module.Msgpack.{
  read_be, skip_times, skip_len, skip_items, skip_payload, check_end, skip_value_inner, skip_fuel,
  skip_value,
}

-- An answer of `skip_value` at `c`: past it and inside the same buffer, or an error of the program.
abbrev pub Passes : Cursor → Result Cursor → Type 0
Passes c (ok c') = (c'.bytes ≡ c.bytes) × (c.pos < c'.pos) × (c'.pos ≤ length c.bytes)
Passes c (err e) = e ≢ out_of_fuel

-- An answer before the check of the end.
abbrev Moves : Cursor → Result Cursor → Type 0
Moves c (ok c') = (c'.bytes ≡ c.bytes) × (c.pos ≤ c'.pos)
Moves c (err e) = e ≢ out_of_fuel

abbrev left : Cursor → ℕ
left c = length c.bytes - c.pos

Moves-trans :
    (c c' : Cursor) (r : Result Cursor)
    → c'.bytes ≡ c.bytes
    → c.pos ≤ c'.pos
    → Moves c' r
    → Moves c r
Moves-trans c c' (ok d) b p h = (h.0 ∙ b, omega arith)
Moves-trans c c' (err e) b p h = h

Moves-advance : (n : ℕ) (c : Cursor) → Moves c (ok (advance n c))
Moves-advance n c = (refl, omega arith)

read_be-cases :
    (w : ℕ) (c : Cursor)
    → (read_be w c ≡ err unexpected_eof) ⊎ ((n : ℕ) × (read_be w c ≡ ok (n, advance w c)))
unfolding read_be read_exact
read_be-cases w c = elim (Bool-cases (ltb (length (rest c)) w)) [
  | inl e ↦ inl (rw (e, ◌>>=◌) refl)
  | inr e ↦ inr (from_be 0 (take w (rest c)), rw (e, ◌>>=◌) refl)
]

skip_len-Moves : (w extra : ℕ) (c : Cursor) → Moves c (skip_len w extra c)
unfolding skip_len
skip_len-Moves w extra c = elim (read_be-cases w c) [
  | inl e ↦ rw e (λ p. cc)
  | inr (n, e) ↦ rw e (refl, omega arith)
]

-- Under a `skip` that behaves where few bytes are left, the match behaves.
module _ (fuel : ℕ) (skip : Cursor → Result Cursor)
    (good : (c : Cursor) → left c < fuel → Passes c (skip c)) where
  skip_times-Moves : (n : ℕ) (c : Cursor) → left c < fuel → Moves c (skip_times skip n c)
  unfolding skip_times
  skip_times-Moves zero c h = (refl, omega arith)
  skip_times-Moves (suc n) c h = go (skip c) (good c h) (skip_times-Moves n)
    where
      go :
          (r : Result Cursor)
          → Passes c r
          → ((d : Cursor) → left d < fuel → Moves d (skip_times skip n d))
          → Moves c (r >>= skip_times skip n)
      go (ok c') p k =
          Moves-trans c c' (skip_times skip n c') p.0 (omega arith)
            (k c' (omega (arith, ap length p.0)))
      go (err e) p k = p

  skip_items-Moves :
      (w times : ℕ) (c : Cursor) → left c < fuel → Moves c (skip_items skip w times c)
  unfolding skip_items
  skip_items-Moves w times c h = elim (read_be-cases w c) [
    | inl e ↦ rw e (λ p. cc)
    | inr (n, e) ↦ rw e (
        Moves-trans c (advance w c) _ refl (omega arith)
          (skip_times-Moves (n * times % 2 ^ (8 * w)) (advance w c) (omega arith)))
  ]

  skip_payload-Moves : (m : Marker) (c : Cursor) → left c < fuel → Moves c (skip_payload skip m c)
  unfolding skip_payload
  skip_payload-Moves str8 c h = skip_len-Moves 1 0 c
  skip_payload-Moves bin8 c h = skip_len-Moves 1 0 c
  skip_payload-Moves str16 c h = skip_len-Moves 2 0 c
  skip_payload-Moves bin16 c h = skip_len-Moves 2 0 c
  skip_payload-Moves str32 c h = skip_len-Moves 4 0 c
  skip_payload-Moves bin32 c h = skip_len-Moves 4 0 c
  skip_payload-Moves ext8 c h = skip_len-Moves 1 1 c
  skip_payload-Moves ext16 c h = skip_len-Moves 2 1 c
  skip_payload-Moves ext32 c h = skip_len-Moves 4 1 c
  skip_payload-Moves (fix_array len) c h = skip_times-Moves len c h
  skip_payload-Moves array16 c h = skip_items-Moves 2 1 c h
  skip_payload-Moves array32 c h = skip_items-Moves 4 1 c h
  skip_payload-Moves (fix_map len) c h = skip_times-Moves (len * 2 % 2 ^ 8) c h
  skip_payload-Moves map16 c h = skip_items-Moves 2 2 c h
  skip_payload-Moves map32 c h = skip_items-Moves 4 2 c h
  skip_payload-Moves reserved c h = λ p. cc
  skip_payload-Moves _ c h = (refl, omega arith)

check_end-Passes :
    (c : Cursor) (r : Result Cursor) → Moves (advance 1 c) r → Passes c (r >>= check_end)
unfolding check_end
check_end-Passes c (err e) h = h
check_end-Passes c (ok d) h = elim (Bool-cases (ltb (length d.bytes) d.pos)) [
  | inl e ↦ rw e (λ p. cc)
  | inr e ↦ rw e (h.0, omega arith, ground arith)
]

list_cases : (bs : Bytes) → (bs ≡ []) ⊎ ((b : ℕ) × (more : Bytes) × (bs ≡ b ∷ more))
list_cases [] = inl refl
list_cases (b ∷ more) = inr (b, more, refl)

module _ (rmp : Markers) where
  skip_fuel-Passes : (fuel : ℕ) (c : Cursor) → left c < fuel → Passes c (skip_fuel rmp fuel c)
  unfolding skip_fuel skip_value_inner
  skip_fuel-Passes zero c h = absurd (omega arith)
  skip_fuel-Passes (suc fuel) c h = go (skip_fuel-Passes fuel) (list_cases (rest c))
    where
      go :
          ((d : Cursor) → left d < fuel → Passes d (skip_fuel rmp fuel d))
          → (rest c ≡ []) ⊎ ((b : ℕ) × (more : Bytes) × (rest c ≡ b ∷ more))
          → Passes c (skip_fuel rmp (suc fuel) c)
      go good (inl e) = rw (rmp.read_marker_end c e) (λ p. cc)
      go good (inr (b, more, e)) = rw (rmp.read_marker_byte c b more e) (
          check_end-Passes c _ (
            skip_payload-Moves fuel (skip_fuel rmp fuel) good (rmp.from_u8 b) (advance 1 c)
              (omega (arith, ap length e, length-rest c))))

  -- On any bytes at any position, `skip_value` ends: it returns a position past the old one and
  -- inside the same buffer, or an error of the program, which to run out of fuel is not.
  pub skip_value-Passes : (c : Cursor) → Passes c (skip_value rmp c)
  unfolding skip_value
  skip_value-Passes c = skip_fuel-Passes (suc (length c.bytes)) c (omega arith)
