-- ===== src/Protocol/Header.antt =====
-- The packet header of tarantool/src/network/protocol/codec.rs.
pub mod Laws
use tarantool_module.Base.{
  ℕ, zero, suc, ◌+◌, ◌-◌, ◌*◌, ◌/◌, ◌%◌, ◌^◌, ◌≡◌, List, [], ◌∷◌, ◌++◌, Option, none, some, ◌==◌,
  if◌then◌else◌,
}
use tarantool_module.Io.{Bytes, Cursor, Result, ok, err, ◌>>=◌, invalid_data}
use tarantool_module.Msgpack.{skip_value}
use tarantool_module.Protocol.Rmp.{Rmp}

-- Keys of a header.
abbrev pub request_type : ℕ
request_type = 0x00

abbrev pub sync_key : ℕ
sync_key = 0x01

abbrev pub schema_version_key : ℕ
schema_version_key = 0x05

-- `IProtoType::Error`
abbrev pub error_type : ℕ
error_type = 0x8000

pub record Header : Type 0 where
  pub sync : ℕ
  pub iproto_type : ℕ
  pub error_code : ℕ
  pub schema_version : ℕ

-- The local variables of `Header::decode`.
pub record Fields : Type 0 where
  pub sync : Option ℕ
  pub iproto_type : Option ℕ
  pub error_code : ℕ
  pub schema_version : Option ℕ

abbrev pub no_fields : Fields
no_fields = record { sync = none; iproto_type = none; error_code = 0; schema_version = none }

-- `type & IPROTO_TYPE_ERROR != 0`
abbrev pub has_error_bit : ℕ → ℕ
has_error_bit t = t / 0x8000 % 2

-- The arm of the request type; to clear the bit is to subtract it.
pub set_type : ℕ → Fields → Fields
set_type t f =
    if has_error_bit t == 1
    then record f { iproto_type = some error_type; error_code = t - 0x8000 }
    else record f { iproto_type = some t }

-- The tests after the loop.
pub finish : Fields → Result Header
finish f = elim f.sync [
  | none ↦ err invalid_data
  | some s ↦ elim f.iproto_type [
    | none ↦ err invalid_data
    | some t ↦ elim f.schema_version [
      | none ↦ err invalid_data
      | some v ↦
          ok (record { sync = s; iproto_type = t; error_code = f.error_code; schema_version = v })
    ]
  ]
]

module _ (rmp : Rmp) where
  -- `Header::encode`
  unfoldable pub encode : Header → Bytes
  encode h =
      rmp.write_map_len 2
      ++ (rmp.write_pfix request_type
          ++ (rmp.write_uint h.iproto_type ++ (rmp.write_pfix sync_key ++ rmp.write_uint h.sync)))

  -- `encode_header`
  unfoldable pub encode_header : ℕ → ℕ → Bytes
  unfolding encode
  encode_header sync type =
      encode (record { sync = sync; iproto_type = type; error_code = 0; schema_version = 0 })

  -- The match on one key.
  pub decode_field : ℕ → Fields → Cursor → Result (Fields × Cursor)
  unfolding set_type
  decode_field key f c =
      if key == request_type
      then (do (t, c') ← rmp.read_int_u32 c; ok (set_type t f, c'))
      else (if key == sync_key
          then (do (s, c') ← rmp.read_int_u64 c; ok (record f { sync = some s }, c'))
          else (if key == schema_version_key
              then (do (v, c') ← rmp.read_int_u64 c; ok (record f { schema_version = some v }, c'))
              else (do c' ← skip_value rmp.markers c; ok (f, c'))))

  pub decode_fields : ℕ → Fields → Cursor → Result (Fields × Cursor)
  decode_fields zero f c = ok (f, c)
  decode_fields (suc n) f c = do
    (key, c1) ← rmp.read_pfix c
    (f', c2) ← decode_field key f c1
    decode_fields n f' c2

  -- `Header::decode`
  pub decode : Cursor → Result (Header × Cursor)
  unfolding finish
  decode c = do
    (n, c1) ← rmp.read_map_len c
    (f, c2) ← decode_fields n no_fields c1
    h ← finish f
    ok (h, c2)
