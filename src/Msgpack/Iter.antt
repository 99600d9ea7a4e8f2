-- ===== src/Msgpack/Iter.antt =====
-- `ValueIter` of tarantool/src/msgpack.rs: the raw bytes of consecutive values.
use mathlib.Core.List.{append_assoc}
use tarantool_module.Base.{
  ℕ, zero, suc, ◌+◌, ◌-◌, ◌≤◌, ◌<◌, ◌⊎◌, ◌≡◌, ◌≢◌, refl, sym, ap, ◌∙◌, List, [], ◌∷◌, ◌++◌, arith,
  concat, length, length-take, take, take-append-drop, drop-drop, drop, length-append, Option, none,
  some, leb, if◌then◌else◌, le→leb, lt→leb_false, take-append_length, false, Bool-cases, inl, inr,
}
use mathlib.Core.Path.{ap₂}
use tarantool_module.Io.{
  out_of_fuel, Bytes, Cursor, Result, ok, err, ◌>>=◌, advance, rest, at_start,
}
use tarantool_module.Io.Reads.{length-rest, rest-advance_prefix}
use tarantool_module.Msgpack.Rmp.{Markers, Arrays}
use tarantool_module.Msgpack.{skip_value}
use tarantool_module.Msgpack.Format.{
  Value, Items, nil, cons, count, encode, encode_items, IsValid, IsValidItems,
}
use tarantool_module.Msgpack.Skip.{skip_value-encode, encode-pos}
use tarantool_module.Msgpack.Total.{Passes, skip_value-Passes}

pub record ValueIter : Type 0 where
  pub len : Option ℕ
  pub cursor : Cursor

abbrev pub slice : ℕ → ℕ → Bytes → Bytes
slice start end bs = take (end - start) (drop start bs)

unfoldable pub new : Bytes → ValueIter
new bs = record { len = none; cursor = at_start bs }

unfoldable pub from_array : Arrays → Bytes → Result ValueIter
from_array rmp bs = do
  (n, c) ← rmp.read_array_len (at_start bs)
  ok (record { len = some n; cursor = c })

module _ (rmp : Markers) where
  -- The bytes that `skip_value` passes. After an error the model has no iterator: the position is
  -- then unspecified.
  take_raw : ValueIter → Result (Bytes × ValueIter)
  take_raw it = do
    c' ← skip_value rmp it.cursor
    ok (slice it.cursor.pos c'.pos it.cursor.bytes, record it { cursor = c' })

  pub next_raw : ValueIter → Option (Result (Bytes × ValueIter))
  unfolding take_raw
  next_raw it = if leb (length it.cursor.bytes) it.cursor.pos then none else some (take_raw it)

  -- `Iterator::next`: `self.next_raw()?.ok()`
  pub next : ValueIter → Option (Bytes × ValueIter)
  next it = elim (next_raw it) [ none ↦ none | some (ok r) ↦ some r | some (err e) ↦ none ]

  -- A `for` loop over the iterator that collects the items.
  pub collect : ℕ → ValueIter → List Bytes
  collect zero it = []
  collect (suc fuel) it = elim (next it) [ none ↦ [] | some (bs, it') ↦ bs ∷ collect fuel it' ]

  pub slice_prefix :
      (c : Cursor) (bs more : Bytes)
      → rest c ≡ bs ++ more
      → slice c.pos (c.pos + length bs) c.bytes ≡ bs
  slice_prefix c bs more e =
      ap (λ n. take n (rest c)) (span c.pos (length bs))
      ∙ ap (take (length bs)) e
      ∙ take-append_length bs more
    where
      span : (p n : ℕ) → p + n - p ≡ n
      span p n = omega arith

  not_at_end :
      (c : Cursor) (bs : Bytes) → rest c ≡ bs → 0 < length bs → leb (length c.bytes) c.pos ≡ false
  not_at_end c bs e h =
      lt→leb_false (length c.bytes) c.pos (omega (arith, ap length e, length-rest c))

  -- The value and the iterator behind it.
  abbrev pub behind : Value → ValueIter → Bytes × ValueIter
  behind v it =
      (encode rmp.to_u8 v, record it { cursor = advance (length (encode rmp.to_u8 v)) it.cursor })

  next_raw-encode :
      (v : Value) (it : ValueIter) (more : Bytes)
      → IsValid v
      → rest it.cursor ≡ encode rmp.to_u8 v ++ more
      → next_raw it ≡ some (ok (behind v it))
  unfolding next_raw
  next_raw-encode v it more h e =
      let long = length-append (encode rmp.to_u8 v) more in
      rw (not_at_end it.cursor (encode rmp.to_u8 v ++ more) e (omega (arith, encode-pos rmp v))) (
        rw (skip_value-encode rmp v it.cursor more h e) (
          ap (λ bs. some (ok (bs, (behind v it).1)))
            (slice_prefix it.cursor (encode rmp.to_u8 v) more e)))

  next-encode :
      (v : Value) (it : ValueIter) (more : Bytes)
      → IsValid v
      → rest it.cursor ≡ encode rmp.to_u8 v ++ more
      → next it ≡ some (behind v it)
  unfolding next
  next-encode v it more h e = rw (next_raw-encode v it more h e, next)

  next_raw_end : (it : ValueIter) → rest it.cursor ≡ [] → next_raw it ≡ none
  unfolding next_raw
  next_raw_end it e = rw (
      le→leb (length it.cursor.bytes) it.cursor.pos
        (omega (arith, ap length e, length-rest it.cursor)))

  next_end : (it : ValueIter) → rest it.cursor ≡ [] → next it ≡ none
  unfolding next
  next_end it e = rw (next_raw_end it e, next)

  abbrev pub encodings : Items → List Bytes
  encodings nil = []
  encodings (cons v vs) = encode rmp.to_u8 v ∷ encodings vs

  pub collect-items :
      (vs : Items) (fuel : ℕ) (it : ValueIter)
      → IsValidItems vs
      → rest it.cursor ≡ encode_items rmp.to_u8 vs
      → count vs < fuel
      → collect fuel it ≡ encodings vs
  unfolding collect
  collect-items vs zero it h e f = absurd (omega arith)
  collect-items nil (suc fuel) it h e f = rw (next_end it e, collect)
  collect-items (cons v vs) (suc fuel) it h e f =
      rw (next-encode v it (encode_items rmp.to_u8 vs) h.0 e, collect)
        (ap (◌∷◌ (encode rmp.to_u8 v)) (
          collect-items vs fuel _ h.1
            (rest-advance_prefix it.cursor (encode rmp.to_u8 v) (encode_items rmp.to_u8 vs) e)
            (omega arith)))

  -- Over the encodings of a list of values, one after another, the iterator yields the bytes of
  -- each value in order, and then ends.
  collect-new :
      (vs : Items) (fuel : ℕ)
      → IsValidItems vs
      → count vs < fuel
      → collect fuel (new (encode_items rmp.to_u8 vs)) ≡ encodings vs
  unfolding new
  collect-new vs fuel h f = collect-items vs fuel _ h refl f

  -- What `next_raw` hands out stands at the position, and is not empty; an error is the program's.
  abbrev Takes : ValueIter → Option (Result (Bytes × ValueIter)) → Type 0
  Takes it none = Unit {0}
  Takes it (some (err e)) = e ≢ out_of_fuel
  Takes it (some (ok (bs, it'))) =
      (0 < length bs) × (rest it.cursor ≡ bs ++ rest it'.cursor) × (it'.len ≡ it.len)

  rest_split :
      (c c' : Cursor)
      → c'.bytes ≡ c.bytes
      → c.pos ≤ c'.pos
      → rest c ≡ slice c.pos c'.pos c.bytes ++ rest c'
  rest_split c c' b p =
      sym (take-append-drop (c'.pos - c.pos) (rest c))
      ∙ ap (λ t. slice c.pos c'.pos c.bytes ++ t)
          (drop-drop c.pos (c'.pos - c.pos) c.bytes ∙ ap₂ drop (omega arith) (sym b))

  next_raw-Takes : (it : ValueIter) → Takes it (next_raw it)
  unfolding next_raw
  next_raw-Takes it = elim (Bool-cases (leb (length it.cursor.bytes) it.cursor.pos)) [
    | inl e ↦ rw e tt
    | inr e ↦ rw e (go (skip_value rmp it.cursor) (skip_value-Passes rmp it.cursor))
  ]
    where
      go :
          (r : Result Cursor)
          → Passes it.cursor r
          → Takes it (
              some (
                r >>= λ c'.
                ok (slice it.cursor.pos c'.pos it.cursor.bytes, record it { cursor = c' })))
      go (err e) p = p
      go (ok c') p = (
        omega (arith, length-take (c'.pos - it.cursor.pos) (rest it.cursor), length-rest it.cursor),
        rest_split it.cursor c' p.0 (omega arith),
        refl,
      )

  collect-none : (fuel : ℕ) (it : ValueIter) → next it ≡ none → collect (suc fuel) it ≡ []
  unfolding collect
  collect-none fuel it e = rw (e, collect)

  collect-some :
      (fuel : ℕ) (it it' : ValueIter) (bs : Bytes)
      → next it ≡ some (bs, it')
      → collect (suc fuel) it ≡ bs ∷ collect fuel it'
  unfolding collect
  collect-some fuel it it' bs e = rw (e, collect)

  next-Takes :
      (it : ValueIter) (r : Option (Result (Bytes × ValueIter)))
      → next_raw it ≡ r
      → Takes it r
      → (next it ≡ none)
        ⊎ ((bs : Bytes) × (it' : ValueIter) × (next it ≡ some (bs, it'))
            × (rest it.cursor ≡ bs ++ rest it'.cursor))
  unfolding next
  next-Takes it none e t = inl (rw (e, next))
  next-Takes it (some (err x)) e t = inl (rw (e, next))
  next-Takes it (some (ok (bs, it'))) e t = inr (bs, it', rw (e, next), t.1)

  -- On any bytes, the items that a loop collects are, one after another, a prefix of the buffer: no
  -- byte is skipped and none is handed out twice.
  collect_prefix :
      (fuel : ℕ) (it : ValueIter)
      → (tail : Bytes) × (rest it.cursor ≡ concat (collect fuel it) ++ tail)
  collect_prefix zero it = (rest it.cursor, unfold collect in refl)
  collect_prefix (suc fuel) it =
      go (next-Takes it (next_raw it) refl (next_raw-Takes it)) (collect_prefix fuel)
    where
      go :
          (next it ≡ none)
            ⊎ ((bs : Bytes) × (it' : ValueIter) × (next it ≡ some (bs, it'))
                × (rest it.cursor ≡ bs ++ rest it'.cursor))
          → ((it' : ValueIter)
              → (tail : Bytes) × (rest it'.cursor ≡ concat (collect fuel it') ++ tail))
          → (tail : Bytes) × (rest it.cursor ≡ concat (collect (suc fuel) it) ++ tail)
      go (inl e) k = (rest it.cursor, rw (collect-none fuel it e))
      go (inr (bs, it', e, t)) k = (
        (k it').0,
        rw (collect-some fuel it it' bs e) (
            t
            ∙ ap (◌++◌ bs) (k it').1
            ∙ sym (append_assoc bs (concat (collect fuel it')) (k it').0)),
      )
