-- ===== src/Io/Reads.antt =====
-- Laws of reads on a cursor.
use tarantool_module.Base.{
  ℕ, ◌+◌, ◌-◌, ◌*◌, ◌≡◌, refl, sym, ap, ◌∙◌, [], ◌∷◌, ◌++◌, length, take, drop, ◌≤◌, arith,
  length-append, length-drop, take-append_length, drop-append_length, drop-drop, le→ltb_false,
}
use tarantool_module.Io.{Bytes, Cursor, ok, rest, advance, read_exact, from_be}

pub rest-advance : (n : ℕ) (c : Cursor) → rest (advance n c) ≡ drop n (rest c)
rest-advance n c = sym (drop-drop c.pos n c.bytes)

-- Past a prefix of what is left stands what follows it.
pub rest-advance_prefix :
    (c : Cursor) (bs more : Bytes) → rest c ≡ bs ++ more → rest (advance (length bs) c) ≡ more
rest-advance_prefix c bs more h = rest-advance (length bs) c ∙ rw h (drop-append_length bs more)

pub length-rest : (c : Cursor) → length (rest c) ≡ length c.bytes - c.pos
length-rest c = length-drop c.pos c.bytes

pub advance-advance : (m n : ℕ) (c : Cursor) → advance n (advance m c) ≡ advance (m + n) c
advance-advance m n c = ap (λ p. record c { pos = p }) (omega arith)

pub read_exact_prefix :
    (c : Cursor) (bs more : Bytes)
    → rest c ≡ bs ++ more
    → read_exact (length bs) c ≡ ok (bs, advance (length bs) c)
unfolding read_exact
read_exact_prefix c bs more h =
    rw (h, le→ltb_false (length (bs ++ more)) (length bs) (omega (arith, length-append bs more)))
      (rw (take-append_length bs more))

-- A successful read advances over bytes that are there.
pub read_exact_takes :
    (n : ℕ) (c c' : Cursor) (bs : Bytes)
    → read_exact n c ≡ ok (bs, c')
    → (c' ≡ advance n c) × (n ≤ length (rest c)) × (bs ≡ take n (rest c))
unfolding read_exact
read_exact_takes n c c' bs h = ground arith

pub from_be-append :
    (acc : ℕ) (xs ys : Bytes) → from_be acc (xs ++ ys) ≡ from_be (from_be acc xs) ys
unfolding from_be
from_be-append acc [] ys = refl
from_be-append acc (x ∷ xs) ys = from_be-append (acc * 256 + x) xs ys
