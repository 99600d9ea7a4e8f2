-- ===== src/Protocol/Api.antt =====
-- tarantool/src/network/protocol/api.rs: the trait `Request` as a record, and its implementations.
-- The user's keys, values and operations are given by how they serialise.
use tarantool_module.Base.{ℕ, List, Option}
use tarantool_module.Io.{Bytes, Cursor, Result, ok}
use tarantool_module.Msgpack.Writer.{Serialized}
use tarantool_module.Protocol.Rmp.{Rmp}
use tarantool_module.Protocol.Header.{encode_header}
use tarantool_module.Protocol.Codec.{
  bytes, ◌then◌, encode_auth, encode_ping, encode_execute, encode_call, encode_eval, encode_select,
  encode_insert, encode_replace, encode_update, encode_upsert, encode_delete, decode_call,
  decode_multiple_rows, decode_single_row,
}

pub record Request (Response : Type 0) : Type 0 where
  pub type : ℕ
  pub encode_body : Serialized
  pub decode_response_body : Cursor → Result Response

-- `Request::encode`: the header, then the body.
unfoldable pub encode : {R : Type 0} → Rmp → Request R → ℕ → Serialized
encode rmp request sync = bytes (encode_header rmp sync request.type) then request.encode_body

module _ (rmp : Rmp) where
  unfoldable pub ping : Request (Unit {0})
  ping = record { type = 64; encode_body = encode_ping rmp; decode_response_body = λ c. ok tt }

  pub call : Bytes → Serialized → Request Bytes
  call fn_name args = record {
    type = 10;
    encode_body = encode_call rmp fn_name args;
    decode_response_body = decode_call rmp;
  }

  pub eval : Bytes → Serialized → Request Bytes
  eval expr args = record {
    type = 8;
    encode_body = encode_eval rmp expr args;
    decode_response_body = decode_call rmp;
  }

  pub execute : Bytes → Serialized → Request (List Bytes)
  execute sql bind_params = record {
    type = 11;
    encode_body = encode_execute rmp sql bind_params;
    decode_response_body = decode_multiple_rows rmp;
  }

  unfoldable pub auth : Bytes → Bytes → Bytes → Bytes → Request (Unit {0})
  auth user pass salt method = record {
    type = 7;
    encode_body = encode_auth rmp user pass salt method;
    decode_response_body = λ c. ok tt;
  }

  pub select : ℕ → ℕ → ℕ → ℕ → ℕ → Serialized → Request (List Bytes)
  select space_id index_id limit offset iterator_type key = record {
    type = 1;
    encode_body = encode_select rmp space_id index_id limit offset iterator_type key;
    decode_response_body = decode_multiple_rows rmp;
  }

  pub insert : ℕ → Serialized → Request (Option Bytes)
  insert space_id value = record {
    type = 2;
    encode_body = encode_insert rmp space_id value;
    decode_response_body = decode_single_row rmp;
  }

  pub replace : ℕ → Serialized → Request (Option Bytes)
  replace space_id value = record {
    type = 3;
    encode_body = encode_replace rmp space_id value;
    decode_response_body = decode_single_row rmp;
  }

  pub update : ℕ → ℕ → Serialized → Serialized → Request (Option Bytes)
  update space_id index_id key ops = record {
    type = 4;
    encode_body = encode_update rmp space_id index_id key ops;
    decode_response_body = decode_single_row rmp;
  }

  pub upsert : ℕ → ℕ → Serialized → Serialized → Request (Option Bytes)
  upsert space_id index_id value ops = record {
    type = 9;
    encode_body = encode_upsert rmp space_id index_id value ops;
    decode_response_body = decode_single_row rmp;
  }

  pub delete : ℕ → ℕ → Serialized → Request (Option Bytes)
  delete space_id index_id key = record {
    type = 5;
    encode_body = encode_delete rmp space_id index_id key;
    decode_response_body = decode_single_row rmp;
  }
