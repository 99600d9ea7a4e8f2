-- ===== src/Io/Writes.antt =====
-- Laws of writes through a cursor.
use mathlib.Core.List.{append-nil, append_assoc}
use tarantool_module.Base.{
  ℕ, ◌+◌, ◌-◌, ◌≡◌, ◌≤◌, refl, sym, ap, ◌∙◌, [], ◌∷◌, ◌++◌, length, take, drop, replicate, arith,
  length-append, length-replicate, take-append_length, drop-append_length, drop_all, drop-drop,
  length-take,
}
use tarantool_module.Io.{Bytes, Cursor, padded, write_all}

pub length-padded : (c : Cursor) → length (padded c) ≡ c.pos
length-padded c = omega (
  arith,
  length-take c.pos (c.bytes ++ replicate (c.pos - length c.bytes) 0),
  length-append c.bytes (replicate (c.pos - length c.bytes) 0),
  length-replicate {A = ℕ} (c.pos - length c.bytes) 0,
)

-- At the end or past it a write appends.
pub bytes-write_all_end :
    (bs : Bytes) (c : Cursor) → length c.bytes ≤ c.pos → (write_all bs c).bytes ≡ padded c ++ bs
unfolding write_all
bytes-write_all_end bs c h =
    ap (λ t. padded c ++ (bs ++ t)) (drop_all (c.pos + length bs) c.bytes (omega arith))
    ∙ ap (λ t. padded c ++ t) (append-nil bs)

padded_inside :
    (front back : Bytes) (c : Cursor)
    → c.bytes ≡ front ++ back
    → c.pos ≡ length front
    → padded c ≡ front
padded_inside front back c e p =
    rw (e, p, append_assoc)
      (take-append_length front (back ++ replicate (length front - length (front ++ back)) 0))

-- Over bytes that are there a write replaces as many.
pub bytes-write_all_over :
    (bs front old back : Bytes) (c : Cursor)
    → c.bytes ≡ front ++ (old ++ back)
    → c.pos ≡ length front
    → length old ≡ length bs
    → (write_all bs c).bytes ≡ front ++ (bs ++ back)
unfolding write_all
bytes-write_all_over bs front old back c e p l =
    rw (padded_inside front (old ++ back) c e p) (ap (λ t. front ++ (bs ++ t)) behind)
  where
    behind : drop (c.pos + length bs) c.bytes ≡ back
    behind =
        sym (drop-drop c.pos (length bs) c.bytes)
        ∙ rw (e, p, drop-append_length front (old ++ back), ← l) (drop-append_length old back)

-- At its end a cursor needs no padding.
pub padded_end : (c : Cursor) → c.pos ≡ length c.bytes → padded c ≡ c.bytes
padded_end c p =
    ap (λ n. take n (c.bytes ++ replicate (c.pos - length c.bytes) 0)) p
    ∙ take-append_length c.bytes (replicate (c.pos - length c.bytes) 0)

pub pos-write_all : (bs : Bytes) (c : Cursor) → (write_all bs c).pos ≡ c.pos + length bs
unfolding write_all
pos-write_all bs c = refl

-- A write at the end appends and ends at the new end.
pub bytes-write_all_append :
    (bs front : Bytes) (c : Cursor)
    → c.bytes ≡ front
    → c.pos ≡ length front
    → (write_all bs c).bytes ≡ front ++ bs
bytes-write_all_append bs front c e p =
    bytes-write_all_end bs c (omega (arith, ap length e))
    ∙ ap (λ t. t ++ bs) (padded_end c (p ∙ sym (ap length e)) ∙ e)

-- One byte and then four, over five.
pub write_header_over :
    (a : ℕ) (bs front old back : Bytes) (c : Cursor)
    → length bs ≡ 4
    → length old ≡ 4
    → c.bytes ≡ front ++ (0 ∷ (old ++ back))
    → c.pos ≡ length front
    → (write_all bs (write_all (a ∷ []) c)).bytes ≡ front ++ (a ∷ (bs ++ back))
write_header_over a bs front old back c l l' e p =
    bytes-write_all_over bs (front ++ (a ∷ [])) old back (write_all (a ∷ []) c)
      (bytes-write_all_over (a ∷ []) front (0 ∷ []) (old ++ back) c e p refl
        ∙ sym (append_assoc front (a ∷ []) (old ++ back)))
      (pos-write_all (a ∷ []) c ∙ omega (arith, length-append front (a ∷ []))) (omega arith)
    ∙ append_assoc front (a ∷ []) (bs ++ back)

-- One byte and then some more, at the end.
pub write_header_end :
    (a : ℕ) (bs front : Bytes) (c : Cursor)
    → c.bytes ≡ front
    → c.pos ≡ length front
    → (write_all bs (write_all (a ∷ []) c)).bytes ≡ front ++ (a ∷ bs)
write_header_end a bs front c e p =
    bytes-write_all_append bs (front ++ (a ∷ [])) (write_all (a ∷ []) c)
      (bytes-write_all_append (a ∷ []) front c e p)
      (pos-write_all (a ∷ []) c ∙ omega (arith, length-append front (a ∷ [])))
    ∙ append_assoc front (a ∷ []) bs
