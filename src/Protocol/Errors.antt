-- ===== src/Protocol/Errors.antt =====
-- The decoding of error responses in tarantool/src/network/protocol/codec.rs. In the three loops a
-- key that is not known is logged, and its value stays unread.
pub mod Laws
mod Tests
use tarantool_module.Base.{ℕ, zero, suc, List, [], ◌∷◌, Option, none, some, ◌==◌, if◌then◌else◌}
use tarantool_module.Io.{
  Bytes, Cursor, Result, ok, err, ◌>>=◌, read_exact, unicode, response_field_not_found, BoxError,
  ErrorInfo, plain, caused,
}
use tarantool_module.Protocol.Rmp.{Rmp}
use tarantool_module.Protocol.Header.{Header}

abbrev pub no_error : ErrorInfo
no_error = record {
  code = 0;
  message = none;
  error_type = none;
  errno = none;
  file = none;
  line = none;
  fields = [];
}

abbrev pub info : BoxError → ErrorInfo
info (plain e) = e
info (caused e _) = e

-- The error with other details, its cause kept.
abbrev pub with_info : BoxError → ErrorInfo → BoxError
with_info (plain _) e = plain e
with_info (caused _ c) e = caused e c

-- `for node in stack_nodes.into_iter().rev()`: each node's cause is the one read after it.
pub chain : List ErrorInfo → Option BoxError → Option BoxError
chain [] acc = acc
chain (node ∷ nodes) acc = elim (chain nodes acc) [
  | none ↦ some (plain node)
  | some next ↦ some (caused node next)
]

module _ (rmp : Rmp) where
  -- `decode_string`
  pub decode_string : Cursor → Result (Bytes × Cursor)
  decode_string c = do
    (len, c1) ← rmp.read_str_len c
    (bs, c2) ← read_exact len c1
    if rmp.is_utf8 bs then ok (bs, c2) else err unicode

  -- One field of an error info map.
  pub node_field : ℕ → ErrorInfo → Cursor → Result (ErrorInfo × Cursor)
  unfolding decode_string
  node_field key e c =
      if key == 0x00
      then (do (s, c') ← decode_string c; ok (record e { error_type = some s }, c'))
      else (if key == 0x01
          then (do (s, c') ← decode_string c; ok (record e { file = some s }, c'))
          else (if key == 0x02
              then (do (n, c') ← rmp.read_int_u32 c; ok (record e { line = some n }, c'))
              else (if key == 0x03
                  then (do (s, c') ← decode_string c; ok (record e { message = some s }, c'))
                  else (if key == 0x04
                      then (do
                        (n, c') ← rmp.read_int_u32 c
                        ok ((if n == 0 then e else record e { errno = some n }), c'))
                      else (if key == 0x05
                          then (do (n, c') ← rmp.read_int_u32 c; ok (record e { code = n }, c'))
                          else (if key == 0x06
                              then ok (set_fields (rmp.read_fields c).0, (rmp.read_fields c).1)
                              else ok (e, c)))))))
    where
      set_fields : Result Bytes → ErrorInfo
      set_fields (ok f) = record e { fields = f }
      set_fields (err _) = e

  pub node_fields : ℕ → ErrorInfo → Cursor → Result (ErrorInfo × Cursor)
  node_fields zero e c = ok (e, c)
  node_fields (suc n) e c = do
    (key, c1) ← rmp.read_pfix c
    (e', c2) ← node_field key e c1
    node_fields n e' c2

  -- `decode_error_stack_node`
  pub decode_error_stack_node : Cursor → Result (ErrorInfo × Cursor)
  decode_error_stack_node c = do (n, c1) ← rmp.read_map_len c; node_fields n no_error c1

  pub decode_nodes : ℕ → Cursor → Result (List ErrorInfo × Cursor)
  decode_nodes zero c = ok ([], c)
  decode_nodes (suc n) c = do
    (node, c1) ← decode_error_stack_node c
    (nodes, c2) ← decode_nodes n c1
    ok (node ∷ nodes, c2)

  pub extended_field : ℕ → Option BoxError → Cursor → Result (Option BoxError × Cursor)
  extended_field key acc c =
      if key == 0
      then (do
        (len, c1) ← rmp.read_array_len c
        (nodes, c2) ← decode_nodes len c1
        ok (chain nodes acc, c2))
      else ok (acc, c)

  pub extended_fields : ℕ → Option BoxError → Cursor → Result (Option BoxError × Cursor)
  extended_fields zero acc c = ok (acc, c)
  extended_fields (suc n) acc c = do
    (key, c1) ← rmp.read_pfix c
    (acc', c2) ← extended_field key acc c1
    extended_fields n acc' c2

  -- `decode_extended_error`
  pub decode_extended_error : Cursor → Result (Option BoxError × Cursor)
  decode_extended_error c = do (n, c1) ← rmp.read_map_len c; extended_fields n none c1

  pub error_field : ℕ → Header → BoxError → Cursor → Result (BoxError × Cursor)
  error_field key h e c =
      if key == 0x31
      then (do
        (s, c') ← decode_string c
        ok (with_info e (record (info e) { message = some s; code = h.error_code }), c'))
      else (if key == 0x52
          then (do (x, c') ← decode_extended_error c; ok ((elim x [ none ↦ e | some e' ↦ e' ]), c'))
          else ok (e, c))

  pub error_fields : ℕ → Header → BoxError → Cursor → Result (BoxError × Cursor)
  error_fields zero h e c = ok (e, c)
  error_fields (suc n) h e c = do
    (key, c1) ← rmp.read_pfix c
    (e', c2) ← error_field key h e c1
    error_fields n h e' c2

  -- `decode_error`
  pub decode_error : Header → Cursor → Result (BoxError × Cursor)
  decode_error h c = do
    (n, c1) ← rmp.read_map_len c
    (e, c2) ← error_fields n h (plain no_error) c1
    elim (info e).message [ none ↦ err response_field_not_found | some _ ↦ ok (e, c2) ]
