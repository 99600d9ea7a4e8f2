-- ===== src/Io.antt =====
-- What the library uses of `std::io` on in-memory buffers: cursors over a byte vector, and the
-- errors of tarantool/src/error.rs that the modelled code returns. A byte is a number below 256.
pub mod Reads
pub mod Writes
use tarantool_module.Base.{
  ℕ, suc, ◌+◌, ◌-◌, ◌*◌, ◌≡◌, refl, List, [], ◌∷◌, ◌++◌, Bool, true, false, Option, none, some,
  length, take, drop, replicate, ltb, if◌then◌else◌, ◌≢◌,
}

abbrev pub Bytes : Type 0
Bytes = List ℕ

-- `BoxError` of tarantool/src/error.rs: the code, message and detail fields. `map` of the
-- type-specific fields stays the bytes that it was read from.
pub record ErrorInfo : Type 0 where
  pub code : ℕ
  pub message : Option Bytes
  pub error_type : Option Bytes
  pub errno : Option ℕ
  pub file : Option Bytes
  pub line : Option ℕ
  pub fields : Bytes

-- The boxed `cause` is the second argument.
pub data BoxError : Type 0 where
  plain : ErrorInfo → BoxError
  caused : ErrorInfo → BoxError → BoxError

-- `crate::error::Error`, the variants that the modelled code builds. `out_of_fuel` is no value of
-- the program: a recursion of the model ran out of rounds.
pub data Error : Type 0 where
  unexpected_eof invalid_data type_mismatch unicode encode decode panic not_connected : Error
  zero_size_hint response_field_not_found : Error
  remote : BoxError → Error
  out_of_fuel : Error

pub data Result {ℓ} (A : Type ℓ) : Type ℓ where
  ok : A → Result A
  err : Error → Result A

infixl 5 ◌>>=◌
abbrev pub ◌>>=◌ {ℓ κ} : {A : Type ℓ} {B : Type κ} → Result A → (A → Result B) → Result B
ok a >>= f = f a
err e >>= f = err e

-- `std::io::Cursor` over a vector or a slice.
pub record Cursor : Type 0 where
  pub bytes : Bytes
  pub pos : ℕ

abbrev pub at_start : Bytes → Cursor
at_start bs = record { bytes = bs; pos = 0 }

-- The bytes from the position on; none, if the position lies past the end.
abbrev pub rest : Cursor → Bytes
rest c = drop c.pos c.bytes

-- `seek(SeekFrom::Current(n))`, which may pass the end.
abbrev pub advance : ℕ → Cursor → Cursor
advance n c = record c { pos = c.pos + n }

-- `read_exact`
unfoldable pub read_exact : ℕ → Cursor → Result (Bytes × Cursor)
read_exact n c =
    if ltb (length (rest c)) n then err unexpected_eof else ok (take n (rest c), advance n c)

-- `read_to_end`
unfoldable pub read_to_end : Cursor → Bytes × Cursor
read_to_end c = (rest c, advance (length (rest c)) c)

-- The bytes up to the position, with zeros where it lies past the end.
abbrev pub padded : Cursor → Bytes
padded c = take c.pos (c.bytes ++ replicate (c.pos - length c.bytes) 0)

-- `write_all` on a cursor over a vector: bytes at the position are replaced, the vector grows.
unfoldable pub write_all : Bytes → Cursor → Cursor
write_all bs c = record {
  bytes = padded c ++ (bs ++ drop (c.pos + length bs) c.bytes);
  pos = c.pos + length bs;
}

-- The value of big-endian bytes, `from_be_bytes`.
unfoldable pub from_be : ℕ → Bytes → ℕ
from_be acc [] = acc
from_be acc (b ∷ bs) = from_be (acc * 256 + b) bs
