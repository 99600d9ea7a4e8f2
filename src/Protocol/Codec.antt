-- ===== src/Protocol/Codec.antt =====
-- The request bodies and the other decoders of tarantool/src/network/protocol/codec.rs. A body is
-- given by what it writes and whether the user's part of it, which is written last or in between,
-- fails; nothing is written after a failure.
pub mod Body
use tarantool_module.Base.{
  ℕ, zero, suc, List, [], ◌∷◌, ◌++◌, Option, none, some, length, take, ◌==◌, if◌then◌else◌, leb,
  true, false,
}
use Prim.Native.Nat.{bit_xor}
use tarantool_module.Io.{
  Bytes, Cursor, Result, ok, err, ◌>>=◌, read_exact, panic, response_field_not_found,
}
use tarantool_module.Msgpack.{skip_value}
use tarantool_module.Msgpack.Iter.{slice}
use tarantool_module.Msgpack.Writer.{Serialized}
use tarantool_module.Protocol.Rmp.{Rmp}

abbrev pub bytes : Bytes → Serialized
bytes bs = record { written = bs; outcome = ok tt }

-- `a?; b`
infixr 60 ◌then◌
abbrev pub ◌then◌ : Serialized → Serialized → Serialized
a then b = elim a.outcome [
  | ok _ ↦ record { written = a.written ++ b.written; outcome = b.outcome }
  | err e ↦ a
]

-- `a ^= b` along two digests.
unfoldable pub xor_bytes : Bytes → Bytes → Bytes
xor_bytes [] bs = []
xor_bytes (a ∷ as') [] = a ∷ as'
xor_bytes (a ∷ as') (b ∷ bs) = bit_xor a b ∷ xor_bytes as' bs

module _ (rmp : Rmp) where
  -- `write_pfix(key)?` and what stands under the key.
  abbrev under : ℕ → Serialized → Serialized
  under key s = bytes (rmp.write_pfix key) then s

  abbrev u32_under : ℕ → ℕ → Serialized
  u32_under key n = under key (bytes (rmp.write_u32 n))

  -- `chap_sha1_auth_data`; `&salt[0..20]` panics on a shorter salt.
  unfoldable pub chap_sha1_auth_data : Bytes → Bytes → Result Bytes
  unfolding xor_bytes
  chap_sha1_auth_data password salt =
      let step_1 = rmp.sha1 password in
      let step_2 = rmp.sha1 step_1 in
      let step_3 = rmp.sha1 (take 20 salt ++ step_2) in
      let scramble = xor_bytes step_1 step_3 in
      if leb 20 (length salt)
      then ok (rmp.write_str_len (length scramble) ++ scramble)
      else err panic

  -- `encode_auth` with the one method of the default build.
  unfoldable pub encode_auth : Bytes → Bytes → Bytes → Bytes → Serialized
  unfolding chap_sha1_auth_data
  encode_auth user password salt method_name = elim (chap_sha1_auth_data password salt) [
    | err e ↦ record { written = []; outcome = err e }
    | ok auth_data ↦
        bytes (rmp.write_map_len 2)
        then under 0x23 (bytes (rmp.write_str user))
        then under 0x21 (bytes (rmp.write_array_len 2))
        then bytes (rmp.write_str method_name)
        then bytes auth_data
  ]

  unfoldable pub encode_ping : Serialized
  encode_ping = bytes (rmp.write_map_len 0)

  pub encode_execute : Bytes → Serialized → Serialized
  encode_execute sql bind_params =
      bytes (rmp.write_map_len 2)
      then under 0x40 (bytes (rmp.write_str sql))
      then under 0x41 bind_params

  pub encode_call : Bytes → Serialized → Serialized
  encode_call function_name args =
      bytes (rmp.write_map_len 2)
      then under 0x22 (bytes (rmp.write_str function_name))
      then under 0x21 args

  pub encode_eval : Bytes → Serialized → Serialized
  encode_eval expression args =
      bytes (rmp.write_map_len 2)
      then under 0x27 (bytes (rmp.write_str expression))
      then under 0x21 args

  pub encode_select : ℕ → ℕ → ℕ → ℕ → ℕ → Serialized → Serialized
  encode_select space_id index_id limit offset iterator_type key =
      bytes (rmp.write_map_len 6)
      then u32_under 0x10 space_id
      then u32_under 0x11 index_id
      then u32_under 0x12 limit
      then u32_under 0x13 offset
      then u32_under 0x14 iterator_type
      then under 0x20 key

  pub encode_insert : ℕ → Serialized → Serialized
  encode_insert space_id value =
      bytes (rmp.write_map_len 2) then u32_under 0x10 space_id then under 0x21 value

  pub encode_replace : ℕ → Serialized → Serialized
  encode_replace space_id value =
      bytes (rmp.write_map_len 2) then u32_under 0x10 space_id then under 0x21 value

  pub encode_update : ℕ → ℕ → Serialized → Serialized → Serialized
  encode_update space_id index_id key ops =
      bytes (rmp.write_map_len 4)
      then u32_under 0x10 space_id
      then u32_under 0x11 index_id
      then under 0x20 key
      then under 0x21 ops

  pub encode_upsert : ℕ → ℕ → Serialized → Serialized → Serialized
  encode_upsert space_id index_id value ops =
      bytes (rmp.write_map_len 4)
      then u32_under 0x10 space_id
      then u32_under 0x15 index_id
      then under 0x28 ops
      then under 0x21 value

  pub encode_delete : ℕ → ℕ → Serialized → Serialized
  encode_delete space_id index_id key =
      bytes (rmp.write_map_len 3)
      then u32_under 0x10 space_id
      then u32_under 0x11 index_id
      then under 0x20 key

  -- `decode_greeting`: the salt stands in bytes 64 to 107 of 128. The `unwrap` may panic.
  unfoldable pub decode_greeting : Cursor → Result Bytes
  decode_greeting c = do
    (buf, c') ← read_exact 128 c
    elim (rmp.base64_decode (slice 64 108 buf)) [ none ↦ err panic | some salt ↦ ok salt ]

  -- `decode_tuple`, the bytes of one value; `value_slice` is the same.
  pub decode_tuple : Cursor → Result (Bytes × Cursor)
  decode_tuple c = do c' ← skip_value rmp.markers c; ok (slice c.pos c'.pos c.bytes, c')

  pub decode_tuples : ℕ → Cursor → Result (List Bytes × Cursor)
  decode_tuples zero c = ok ([], c)
  decode_tuples (suc n) c = do
    (t, c1) ← decode_tuple c
    (ts, c2) ← decode_tuples n c1
    ok (t ∷ ts, c2)

  -- The loops of the three response decoders over the keys of the body: what stands under `DATA` is
  -- read and ends the loop, other values are skipped; `missing` is the answer when there is none.
  pub find_data {ℓ} : {A : Type ℓ} → (Cursor → Result A) → Result A → ℕ → Cursor → Result A
  find_data read missing zero c = missing
  find_data read missing (suc n) c = do
    (key, c1) ← rmp.read_pfix c
    elim (key == 0x30) [
      | true ↦ read c1
      | false ↦ do c2 ← skip_value rmp.markers c1; find_data read missing n c2
    ]

  pub decode_call : Cursor → Result Bytes
  unfolding find_data decode_tuple
  decode_call c = do
    (n, c1) ← rmp.read_map_len c
    find_data (λ d. (do (t, c') ← decode_tuple d; ok t)) (err response_field_not_found) n c1

  pub decode_multiple_rows : Cursor → Result (List Bytes)
  unfolding find_data decode_tuples
  decode_multiple_rows c = do
    (n, c1) ← rmp.read_map_len c
    find_data (λ d. (do (len, d1) ← rmp.read_array_len d; (ts, d2) ← decode_tuples len d1; ok ts))
        (ok []) n c1

  pub decode_single_row : Cursor → Result (Option Bytes)
  unfolding find_data decode_tuple
  decode_single_row c = do
    (n, c1) ← rmp.read_map_len c
    find_data
        (λ d. (do
          (len, d1) ← rmp.read_array_len d
          elim (len == 0) [ true ↦ ok none | false ↦ do (t, d2) ← decode_tuple d1; ok (some t) ]))
        (ok none) n c1
