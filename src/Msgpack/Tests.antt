-- ===== src/Msgpack/Tests.antt =====
-- The theorems on tarantool/src/msgpack.rs at concrete bytes.
use tarantool_module.Base.{◌≡◌, refl, [], ◌∷◌, ◌++◌, some, length, arith}
use tarantool_module.Io.{Bytes, ok, at_start, advance}
use tarantool_module.Msgpack.Rmp.{u8, u16, str8, fix_array, map16, fix_pos}
use tarantool_module.Msgpack.{skip_value}
use tarantool_module.Msgpack.Format.{Value, Items, leaf, group, nil, cons, encode}
use tarantool_module.Msgpack.Skip.{skip_value-encode}
use tarantool_module.Msgpack.Total.{Passes, skip_value-Passes}
use tarantool_module.Msgpack.Iter.{ValueIter, from_array, collect, encodings}
use tarantool_module.Msgpack.Writer.{push_all, from_vec, finish, from_array-finish}
use tarantool_module.Msgpack.Preserve.{preserve_read, preserve_read-fixed}
use tarantool_module.Sample.{markers, arrays}

-- `[5, "hi"]` and `{1: 5}`
abbrev pair : Value
pair = group (fix_array 2) (cons (leaf u8 (5 ∷ [])) (cons (leaf str8 (104 ∷ 105 ∷ [])) nil))

abbrev entry : Value
entry = group map16 (cons (leaf (fix_pos 1) []) (cons (leaf u8 (5 ∷ [])) nil))

abbrev both : Items
both = cons pair (cons entry nil)

abbrev pair_bytes : Bytes
pair_bytes = encode markers.to_u8 pair

skip_value-encode_example :
    skip_value markers (at_start (pair_bytes ++ (7 ∷ [])))
    ≡ ok (advance (length pair_bytes) (at_start (pair_bytes ++ (7 ∷ []))))
skip_value-encode_example =
    skip_value-encode markers pair (at_start (pair_bytes ++ (7 ∷ []))) (7 ∷ []) (omega arith) refl

skip_value-Passes_example :
    Passes (at_start (0x92 ∷ 0xcc ∷ [])) (skip_value markers (at_start (0x92 ∷ 0xcc ∷ [])))
skip_value-Passes_example = skip_value-Passes markers (at_start (0x92 ∷ 0xcc ∷ []))

from_array-finish_example :
    (it : ValueIter) × (from_array arrays
        (finish arrays (push_all (encodings markers both) (from_vec []))).bytes
      ≡ ok it)
    × (it.len ≡ some 2)
    × (collect markers 3 it ≡ encodings markers both)
from_array-finish_example =
    from_array-finish arrays both 3 (omega arith) (omega arith) (omega arith)

preserve_read-fixed_example :
    preserve_read markers (markers.to_u8 u16 ∷ 1 ∷ 2 ∷ 0xc0 ∷ [])
    ≡ ok (markers.to_u8 u16 ∷ 1 ∷ 2 ∷ [], 2 ∷ 0xc0 ∷ [])
preserve_read-fixed_example = preserve_read-fixed markers u16 (1 ∷ []) 2 (0xc0 ∷ []) tt refl refl
