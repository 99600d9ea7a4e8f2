-- ===== src/Msgpack/Format.antt =====
-- The MessagePack format, described on its own: what follows a marker, and the bytes of a value.
use native.Mathlib.Nat.{pow-suc}
use tarantool_module.Base.{
  ℕ, zero, suc, ◌-◌, ◌*◌, ◌/◌, ◌%◌, ◌^◌, ◌≤◌, ◌<◌, ◌≡◌, refl, ◌∙◌, [], ◌∷◌, ◌++◌, arith, length,
  length-append,
}
use tarantool_module.Io.{Bytes, from_be}
use tarantool_module.Io.Reads.{from_be-append}
use tarantool_module.Msgpack.Rmp.{
  Marker, IsMarker, fix_pos, fix_neg, null, u8, u16, u32, u64, i8, i16, i32, i64, f32, f64, fix_str,
  str8, str16, str32, bin8, bin16, bin32, fix_array, array16, array32, fix_map, map16, map32,
  fix_ext1, fix_ext2, fix_ext4, fix_ext8, fix_ext16, ext8, ext16, ext32, reserved,
}

-- `fixed n`: n bytes. `sized w extra`: a length in w bytes, then that many bytes and `extra` more.
-- `inline n`: n values. `counted w times`: a count in w bytes, then `times` as many values.
pub data Shape : Type 0 where
  fixed : ℕ → Shape
  sized : ℕ → ℕ → Shape
  inline : ℕ → Shape
  counted : ℕ → ℕ → Shape
  invalid : Shape

abbrev pub shape : Marker → Shape
shape (fix_pos _) = fixed 0
shape (fix_neg _) = fixed 0
shape null = fixed 0
shape Marker.true = fixed 0
shape Marker.false = fixed 0
shape u8 = fixed 1
shape u16 = fixed 2
shape u32 = fixed 4
shape u64 = fixed 8
shape i8 = fixed 1
shape i16 = fixed 2
shape i32 = fixed 4
shape i64 = fixed 8
shape f32 = fixed 4
shape f64 = fixed 8
shape (fix_str len) = fixed len
shape str8 = sized 1 0
shape str16 = sized 2 0
shape str32 = sized 4 0
shape bin8 = sized 1 0
shape bin16 = sized 2 0
shape bin32 = sized 4 0
shape (fix_array len) = inline len
shape array16 = counted 2 1
shape array32 = counted 4 1
shape (fix_map len) = inline (len * 2)
shape map16 = counted 2 2
shape map32 = counted 4 2
shape fix_ext1 = fixed 2
shape fix_ext2 = fixed 3
shape fix_ext4 = fixed 5
shape fix_ext8 = fixed 9
shape fix_ext16 = fixed 17
shape ext8 = sized 1 1
shape ext16 = sized 2 1
shape ext32 = sized 4 1
shape reserved = invalid

-- `n` in `w` bytes, the most significant first.
abbrev pub be : ℕ → ℕ → Bytes
be zero n = []
be (suc w) n = be w (n / 256) ++ (n % 256 ∷ [])

pub length-be : (w n : ℕ) → length (be w n) ≡ w
length-be zero n = refl
length-be (suc w) n =
    omega (arith, length-append (be w (n / 256)) (n % 256 ∷ []), length-be w (n / 256))

pub from_be-be : (w n : ℕ) → n < 256 ^ w → from_be 0 (be w n) ≡ n
unfolding from_be
from_be-be zero n h = omega arith
from_be-be (suc w) n h =
    from_be-append 0 (be w (n / 256)) (n % 256 ∷ [])
    ∙ omega (arith, from_be-be w (n / 256) (omega (arith, pow-suc 256 w)))

-- A marker with the bytes behind its length, or with the values inside.
mutual
  pub data Value : Type 0 where
    leaf : Marker → Bytes → Value
    group : Marker → Items → Value

  pub data Items : Type 0 where
    nil : Items
    cons : Value → Items → Items

abbrev pub count : Items → ℕ
count nil = 0
count (cons v vs) = suc (count vs)

-- The length or the count between the marker and the rest.
abbrev pub head : Shape → ℕ → Bytes
head (fixed n) k = []
head (sized w extra) k = be w (k - extra)
head (inline n) k = []
head (counted w times) k = be w (k / times)
head invalid k = []

-- A leaf's bytes fit its marker.
abbrev pub Fits : Shape → ℕ → Type 0
Fits (fixed n) k = k ≡ n
Fits (sized w extra) k = (extra ≤ k) × (k - extra < 256 ^ w)
Fits (inline n) k = ⊥
Fits (counted w times) k = ⊥
Fits invalid k = ⊥

-- A group's number of values fits its marker, and the marker's width too, keys and values of a map
-- counted one by one.
abbrev pub Holds : Shape → ℕ → Type 0
Holds (fixed n) k = ⊥
Holds (sized w extra) k = ⊥
Holds (inline n) k = k ≡ n
Holds (counted w times) k = (k / times * times ≡ k) × (k < 256 ^ w)
Holds invalid k = ⊥

module _ (to_u8 : Marker → ℕ) where
  abbrev mutual
    pub encode : Value → Bytes
    encode (leaf m bs) = to_u8 m ∷ (head (shape m) (length bs) ++ bs)
    encode (group m vs) = to_u8 m ∷ (head (shape m) (count vs) ++ encode_items vs)

    pub encode_items : Items → Bytes
    encode_items nil = []
    encode_items (cons v vs) = encode v ++ encode_items vs

abbrev mutual
  pub IsValid : Value → Type 0
  IsValid (leaf m bs) = IsMarker m × Fits (shape m) (length bs)
  IsValid (group m vs) = IsMarker m × Holds (shape m) (count vs) × IsValidItems vs

  pub IsValidItems : Items → Type 0
  IsValidItems nil = Unit {0}
  IsValidItems (cons v vs) = IsValid v × IsValidItems vs
