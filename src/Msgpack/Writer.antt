-- ===== src/Msgpack/Writer.antt =====
-- `ArrayWriter` of tarantool/src/msgpack.rs: an array whose header is written last.
use mathlib.Core.List.{append_assoc, append-nil}
use mathlib.Core.Path.{ap₂, subst, subst₂}
use native.Mathlib.Nat.{mod-eq_of_lt, le_refl}
use tarantool_module.Base.{
  ◌⊎◌, inl, inr, ℕ, suc, ◌+◌, ◌-◌, ◌%◌, ◌^◌, ◌≤◌, ◌<◌, ◌≡◌, refl, sym, ap, ◌∙◌, List, [], ◌∷◌, ◌++◌,
  arith, concat, length, take, replicate, length-append, some, take_all,
}
use tarantool_module.Io.{Bytes, Cursor, Result, ok, err, advance, at_start, rest, padded, write_all}
use tarantool_module.Io.Writes.{
  bytes-write_all_end, length-padded, padded_end, pos-write_all, write_header_over,
  write_header_end,
}
use tarantool_module.Io.Reads.{rest-advance_prefix}
use tarantool_module.Msgpack.Rmp.{Arrays, array32}
use tarantool_module.Msgpack.Format.{Items, nil, cons, count, encode_items, IsValidItems}
use tarantool_module.Msgpack.Iter.{ValueIter, from_array, collect, encodings, collect-items}

pub record ArrayWriter : Type 0 where
  pub writer : Cursor
  pub start : ℕ
  pub len : ℕ

-- What a serialiser writes, and whether it then fails.
pub record Serialized : Type 0 where
  pub written : Bytes
  pub outcome : Result (Unit {0})

unfoldable pub new : Cursor → ArrayWriter
new c = record { start = c.pos; writer = advance 5 c; len = 0 }

unfoldable pub from_vec : Bytes → ArrayWriter
unfolding new
from_vec buf = new (at_start buf)

-- `push` and `push_tuple`; `len` is a `u32`, which wraps. After an error the writer has what was
-- written, and `len` stays.
unfoldable pub push : Serialized → ArrayWriter → Result (Unit {0}) × ArrayWriter
push s aw = elim s.outcome [
  | ok _ ↦
      (ok tt, record aw { writer = write_all s.written aw.writer; len = (aw.len + 1) % 2 ^ 32 })
  | err e ↦ (err e, record aw { writer = write_all s.written aw.writer })
]

unfoldable pub push_raw : Bytes → ArrayWriter → ArrayWriter
push_raw v aw = record aw { writer = write_all v aw.writer; len = (aw.len + 1) % 2 ^ 32 }

unfoldable pub push_all : List Bytes → ArrayWriter → ArrayWriter
unfolding push_raw
push_all [] aw = aw
push_all (v ∷ vs) aw = push_all vs (push_raw v aw)

unfoldable pub finish : Arrays → ArrayWriter → Cursor
finish rmp aw =
    write_all (rmp.write_data_u32 aw.len)
      (write_all (rmp.to_u8 array32 ∷ []) (record aw.writer { pos = aw.start }))

-- `push` of a serialiser that succeeds is `push_raw` of what it writes.
push-eq-push_raw :
    (v : Bytes) (aw : ArrayWriter)
    → push (record { written = v; outcome = ok tt }) aw ≡ (ok tt, push_raw v aw)
unfolding push push_raw
push-eq-push_raw v aw = refl

-- The writer between `new` at the end of `buf` and `finish`, after the values `body`.
record IsOpen (buf body : Bytes) (n : ℕ) (aw : ArrayWriter) : Type 0 where
  contents : padded aw.writer ≡ buf ++ (replicate 5 0 ++ body)
  reached : length aw.writer.bytes ≤ aw.writer.pos
  began : aw.start ≡ length buf
  counted : aw.len ≡ n
  some_bytes : (aw.writer.bytes ≡ padded aw.writer) ⊎ ((body ≡ []) × (aw.writer.bytes ≡ buf))

push_raw-IsOpen :
    (buf body v : Bytes) (n : ℕ) (aw : ArrayWriter)
    → n + 1 < 2 ^ 32
    → IsOpen buf body n aw
    → IsOpen buf (body ++ v) (n + 1) (push_raw v aw)
unfolding push_raw
push_raw-IsOpen buf body v n aw h o =
    let w = write_all v aw.writer in
    let grown : w.bytes ≡ padded aw.writer ++ v = bytes-write_all_end v aw.writer o.reached in
    let full : w.pos ≡ length w.bytes = omega (
      arith,
      ap length grown,
      length-append (padded aw.writer) v,
      length-padded aw.writer,
      pos-write_all v aw.writer,
    ) in
    record {
      contents =
          padded_end w full
          ∙ grown
          ∙ ap (λ t. t ++ v) o.contents
          ∙ append_assoc buf (replicate 5 0 ++ body) v;
      reached = omega arith;
      began = o.began;
      counted = rw (o.counted) (mod-eq_of_lt h);
      some_bytes = inl (sym (padded_end w full));
    }

five_more : (bs : Bytes) → length bs + 5 ≡ length (bs ++ replicate 5 0)
five_more bs = sym (length-append bs (replicate 5 0))

excess : (p n : ℕ) → p ≡ n → p + 5 - n ≡ 5
excess p n h = omega arith

new-IsOpen : (c : Cursor) → c.pos ≡ length c.bytes → IsOpen c.bytes [] 0 (new c)
unfolding new
new-IsOpen c e = record {
  contents =
      ap₂ take (ap (λ n. n + 5) e ∙ five_more c.bytes)
        (ap (λ n. c.bytes ++ replicate n 0) (excess c.pos (length c.bytes) e))
      ∙ take_all _ (c.bytes ++ replicate 5 0) (le_refl _);
  reached = omega arith;
  began = e;
  counted = refl;
  some_bytes = inr (refl, refl);
}

add_suc : (n k : ℕ) → n + 1 + k ≡ n + suc k
add_suc n k = omega arith

push_all-IsOpen :
    (vs : List Bytes) (buf body : Bytes) (n : ℕ) (aw : ArrayWriter)
    → n + length vs < 2 ^ 32
    → IsOpen buf body n aw
    → IsOpen buf (body ++ concat vs) (n + length vs) (push_all vs aw)
unfolding push_all
push_all-IsOpen [] buf body n aw h o = record {
  contents = rw (append-nil body) o.contents;
  reached = o.reached;
  began = o.began;
  counted = omega (arith, o.counted);
  some_bytes = rw (append-nil body) o.some_bytes;
}
push_all-IsOpen (v ∷ vs) buf body n aw h o =
    subst₂ (λ b k. IsOpen buf b k (push_all vs (push_raw v aw))) (append_assoc body v (concat vs))
      (add_suc n (length vs))
      (push_all-IsOpen vs buf (body ++ v) (n + 1) (push_raw v aw) (omega arith)
        (push_raw-IsOpen buf body v n aw (omega arith) o))

-- What `finish` leaves: the header in its place, and the values behind it.
finish-IsOpen :
    (rmp : Arrays) (buf body : Bytes) (n : ℕ) (aw : ArrayWriter)
    → IsOpen buf body n aw
    → (finish rmp aw).bytes ≡ buf ++ (rmp.to_u8 array32 ∷ (rmp.write_data_u32 n ++ body))
unfolding finish
finish-IsOpen rmp buf body n aw o = elim o.some_bytes [
  | inl e ↦
      write_header_over (rmp.to_u8 array32) (rmp.write_data_u32 aw.len) buf (replicate 4 0) body
        (record aw.writer { pos = aw.start }) (rmp.length-write_data_u32 aw.len) refl
        (e ∙ o.contents) o.began
      ∙ ap (λ k. buf ++ (rmp.to_u8 array32 ∷ (rmp.write_data_u32 k ++ body))) o.counted
  | inr (e, b) ↦
      write_header_end (rmp.to_u8 array32) (rmp.write_data_u32 aw.len) buf
        (record aw.writer { pos = aw.start }) b o.began
      ∙ ap (λ t. buf ++ (rmp.to_u8 array32 ∷ t))
          (sym (append-nil (rmp.write_data_u32 aw.len))
            ∙ ap₂ (λ k t. rmp.write_data_u32 k ++ t) o.counted (sym e))
]

zero_plus : (n : ℕ) → 0 + n ≡ n
zero_plus n = omega arith

-- An array writer that starts at the end of a buffer, is given fewer than 2 ^ 32 raw values and is
-- finished leaves the buffer, the header of a 32-bit array of that length, and the values in order.
finish-push_all :
    (rmp : Arrays) (c : Cursor) (vs : List Bytes)
    → c.pos ≡ length c.bytes
    → length vs < 2 ^ 32
    → (finish rmp (push_all vs (new c))).bytes
      ≡ c.bytes ++ (rmp.to_u8 array32 ∷ (rmp.write_data_u32 (length vs) ++ concat vs))
finish-push_all rmp c vs e h =
    finish-IsOpen rmp c.bytes (concat vs) (length vs) (push_all vs (new c)) (
      subst (λ k. IsOpen c.bytes (concat vs) k (push_all vs (new c))) (zero_plus (length vs))
        (push_all-IsOpen vs c.bytes [] 0 (new c) (omega arith) (new-IsOpen c e)))

length-encodings : (rmp : Arrays) (vs : Items) → length (encodings rmp.markers vs) ≡ count vs
length-encodings rmp nil = refl
length-encodings rmp (cons v vs) = ap suc (length-encodings rmp vs)

concat-encodings :
    (rmp : Arrays) (vs : Items) → concat (encodings rmp.markers vs) ≡ encode_items rmp.to_u8 vs
concat-encodings rmp nil = refl
concat-encodings rmp (cons v vs) = ap (◌++◌ _) (concat-encodings rmp vs)

-- The round trip of an array: what `ArrayWriter` makes of the encodings of fewer than 2 ^ 32 valid
-- values, `ValueIter::from_array` opens with their number as its length, and the iterator yields
-- those encodings in order and ends.
pub from_array-finish :
    (rmp : Arrays) (vs : Items) (fuel : ℕ)
    → IsValidItems vs
    → count vs < 2 ^ 32
    → count vs < fuel
    → (it : ValueIter) × (from_array rmp
          (finish rmp (push_all (encodings rmp.markers vs) (from_vec []))).bytes
        ≡ ok it)
      × (it.len ≡ some (count vs))
      × (collect rmp.markers fuel it ≡ encodings rmp.markers vs)
unfolding from_array from_vec
from_array-finish rmp vs fuel h n f =
    (it, rw (read) refl, refl, collect-items rmp.markers vs fuel it h after f)
  where
    data_bytes : Bytes
    data_bytes = (finish rmp (push_all (encodings rmp.markers vs) (new (at_start [])))).bytes

    layout :
        data_bytes
        ≡ rmp.to_u8 array32 ∷ (rmp.write_data_u32 (count vs) ++ encode_items rmp.to_u8 vs)
    layout =
        finish-push_all rmp (at_start []) (encodings rmp.markers vs) refl
          (rw (length-encodings rmp vs) n)
        ∙ ap₂ (λ k t. rmp.to_u8 array32 ∷ (rmp.write_data_u32 k ++ t)) (length-encodings rmp vs)
            (concat-encodings rmp vs)

    it : ValueIter
    it = record { len = some (count vs); cursor = advance 5 (at_start data_bytes) }

    read : rmp.read_array_len (at_start data_bytes) ≡ ok (count vs, advance 5 (at_start data_bytes))
    read =
        rmp.read_array_len-array32 (at_start data_bytes) (count vs) (encode_items rmp.to_u8 vs) n
          layout

    after : rest it.cursor ≡ encode_items rmp.to_u8 vs
    after =
        subst (λ k. rest (advance k (at_start data_bytes)) ≡ encode_items rmp.to_u8 vs)
          (ap suc (rmp.length-write_data_u32 (count vs)))
          (rest-advance_prefix (at_start data_bytes)
            (rmp.to_u8 array32 ∷ rmp.write_data_u32 (count vs)) (encode_items rmp.to_u8 vs) layout)
