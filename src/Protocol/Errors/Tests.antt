-- ===== src/Protocol/Errors/Tests.antt =====
-- The theorems on error responses at a concrete one.
use tarantool_module.Base.{◌≡◌, refl, List, [], ◌∷◌, ◌++◌, some, length}
use tarantool_module.Io.{
  Cursor, ok, BoxError, ErrorInfo, plain, at_start, advance, read_exact, from_be,
}
use tarantool_module.Protocol.Header.{Header}
use tarantool_module.Protocol.Errors.{
  no_error, decode_string, node_field, node_fields, decode_error_stack_node, decode_nodes,
  error_field, error_fields, decode_error,
}
use tarantool_module.Sample.{rmp, read_be}

abbrev response : Header
response = record { sync = 7; iproto_type = 0x8000; error_code = 20; schema_version = 80 }

-- A message of two bytes.
abbrev message : Cursor
message =
    at_start
      (rmp.write_map_len 1 ++ (rmp.write_pfix 0x31 ++ (rmp.write_str_len 2 ++ (104 ∷ 105 ∷ []))))

abbrev said : BoxError
said = plain (record no_error { message = some (104 ∷ 105 ∷ []); code = 20 })

message_decoded :
    decode_error rmp response message ≡ ok (said, advance (length message.bytes) message)
unfolding decode_error error_fields error_field decode_string read_be read_exact from_be
message_decoded = refl

-- A stack of two nodes, each with its code.
abbrev nodes : List ErrorInfo
nodes = record no_error { code = 3 } ∷ record no_error { code = 4 } ∷ []

abbrev node_stack : Cursor
node_stack = at_start (
    rmp.write_array_len 2
    ++ (rmp.write_map_len 1
        ++ (rmp.write_pfix 5
            ++ (rmp.write_uint 3
                ++ (rmp.write_map_len 1 ++ (rmp.write_pfix 5 ++ rmp.write_uint 4))))))

abbrev after_length : Cursor
after_length = advance (length (rmp.write_array_len 2)) node_stack

abbrev after_nodes : Cursor
after_nodes = advance (length node_stack.bytes) node_stack

length_read : rmp.read_array_len node_stack ≡ ok (2, after_length)
unfolding read_be read_exact from_be
length_read = refl

nodes_decoded : decode_nodes rmp 2 after_length ≡ ok (nodes, after_nodes)
unfolding decode_nodes decode_error_stack_node node_fields node_field read_be read_exact from_be
nodes_decoded = refl
