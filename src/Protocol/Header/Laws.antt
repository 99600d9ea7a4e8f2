-- ===== src/Protocol/Header/Laws.antt =====
-- `Header::decode` of tarantool/src/network/protocol/codec.rs against the entries of the map.
use mathlib.Core.List.{append_assoc, append-nil}
use tarantool_module.Base.{
  ℕ, ◌+◌, ◌^◌, ◌<◌, ◌≡◌, ◌≢◌, refl, ap, ◌∙◌, List, [], ◌∷◌, ◌++◌, some, All, arith, length,
  length-append, ne→==_false,
}
use tarantool_module.Io.{Bytes, Cursor, Result, ok, err, ◌>>=◌, invalid_data, rest, advance}
use tarantool_module.Io.Reads.{rest-advance_prefix}
use tarantool_module.Msgpack.Format.{Value, IsValid}
use tarantool_module.Msgpack.Format as Format
use tarantool_module.Msgpack.Skip.{skip_value-encode}
use tarantool_module.Protocol.Rmp.{Rmp}
use tarantool_module.Protocol.Header.{
  Header, Fields, request_type, sync_key, schema_version_key, no_fields, set_type, finish, encode,
  decode_field, decode_fields, decode,
}

-- An entry of the map: a known key with its number, or another key with any value.
pub data Entry : Type 0 where
  type sync version : ℕ → Entry
  other : ℕ → Value → Entry

abbrev pub key : Entry → ℕ
key (type _) = request_type
key (sync _) = sync_key
key (version _) = schema_version_key
key (other k _) = k

-- The field that an entry sets; a later entry of the same key wins.
pub apply : Entry → Fields → Fields
apply (type t) f = set_type t f
apply (sync s) f = record f { sync = some s }
apply (version v) f = record f { schema_version = some v }
apply (other k v) f = f

pub apply_all : List Entry → Fields → Fields
apply_all [] f = f
apply_all (e ∷ es) f = apply_all es (apply e f)

abbrev pub Fits : Entry → Type 0
Fits (type t) = t < 2 ^ 32
Fits (sync s) = s < 2 ^ 64
Fits (version v) = v < 2 ^ 64
Fits (other k v) =
    (k < 128) × (k ≢ request_type) × (k ≢ sync_key) × (k ≢ schema_version_key) × IsValid v

module _ (rmp : Rmp) where
  abbrev pub value : Entry → Bytes
  value (type t) = rmp.write_uint t
  value (sync s) = rmp.write_uint s
  value (version v) = rmp.write_uint v
  value (other k v) = Format.encode rmp.to_u8 v

  abbrev pub entries : List Entry → Bytes
  entries [] = []
  entries (e ∷ es) = (rmp.write_pfix (key e) ++ value e) ++ entries es

  key-Fits : (e : Entry) → Fits e → key e < 128
  key-Fits (type _) h = omega arith
  key-Fits (sync _) h = omega arith
  key-Fits (version _) h = omega arith
  key-Fits (other k v) h = h.0

  decode_field-entry :
      (e : Entry) (f : Fields) (c : Cursor) (more : Bytes)
      → Fits e
      → rest c ≡ value e ++ more
      → decode_field rmp (key e) f c ≡ ok (apply e f, advance (length (value e)) c)
  unfolding decode_field apply
  decode_field-entry (type t) f c more h e = rw (rmp.read_int_u32-Reads t h c more e)
  decode_field-entry (sync s) f c more h e = rw (rmp.read_int_u64-Reads s h c more e)
  decode_field-entry (version v) f c more h e = rw (rmp.read_int_u64-Reads v h c more e)
  decode_field-entry (other k v) f c more h e =
      rw
        (
          ne→==_false k request_type h.1,
          ne→==_false k sync_key h.2,
          ne→==_false k schema_version_key h.3,
        )
        (rw (skip_value-encode rmp.markers v c more h.4 e))

  decode_fields-entries :
      (es : List Entry) (f : Fields) (c : Cursor) (more : Bytes)
      → All Fits es
      → rest c ≡ entries es ++ more
      → decode_fields rmp (length es) f c ≡ ok (apply_all es f, advance (length (entries es)) c)
  unfolding decode_fields apply_all
  decode_fields-entries [] f c more h e = ap (λ p. ok (f, record c { pos = p })) (omega arith)
  decode_fields-entries (x ∷ es) f c more h e =
      let front = rmp.write_pfix (key x) in
      let e1 : rest c ≡ front ++ (value x ++ (entries es ++ more)) = simp append_assoc at e in
      let c1 : Cursor = advance (length front) c in
      let e2 : rest c1 ≡ value x ++ (entries es ++ more) =
        rest-advance_prefix c front (value x ++ (entries es ++ more)) e1 in
      let c2 : Cursor = advance (length (value x)) c1 in
      let e3 : rest c2 ≡ entries es ++ more =
        rest-advance_prefix c1 (value x) (entries es ++ more) e2 in
      rw (rmp.read_pfix-Reads (key x) (key-Fits x h.0) c (value x ++ (entries es ++ more)) e1) (
        rw (decode_field-entry x f c1 (entries es ++ more) h.0 e2) (
          decode_fields-entries es (apply x f) c2 more h.1 e3
          ∙ ap (λ p. ok (apply_all es (apply x f), record c { pos = p }))
              (omega (
                arith,
                length-append (front ++ value x) (entries es),
                length-append front (value x),
              ))))

  -- What `decode` answers once the entries are read.
  abbrev pub with_end : Cursor → Result Header → Result (Header × Cursor)
  with_end c (ok h) = ok (h, c)
  with_end c (err e) = err e

  -- The bytes of a header map with these entries.
  abbrev pub packet : List Entry → Bytes
  packet es = rmp.write_map_len (length es) ++ entries es

  -- A header is decoded by its entries alone, in any order, keys that the library does not know
  -- skipped with their values: the answer is that of the collected fields, and the cursor stands
  -- behind the map, so that the body follows.
  pub decode-entries :
      (es : List Entry) (c : Cursor) (more : Bytes)
      → All Fits es
      → length es < 2 ^ 32
      → rest c ≡ packet es ++ more
      → decode rmp c ≡ with_end (advance (length (packet es)) c) (finish (apply_all es no_fields))
  unfolding decode
  decode-entries es c more h n e =
      let front = rmp.write_map_len (length es) in
      let e1 : rest c ≡ front ++ (entries es ++ more) = rw append_assoc at e in
      rw (rmp.read_map_len-Reads (length es) n c (entries es ++ more) e1) (
        rw
          (decode_fields-entries es no_fields (advance (length front) c) more h
            (rest-advance_prefix c front (entries es ++ more) e1))
          (go (finish (apply_all es no_fields))))
    where
      here :
          advance (length (entries es)) (advance (length (rmp.write_map_len (length es))) c)
          ≡ advance (length (packet es)) c
      here =
          ap (λ p. record c { pos = p })
            (omega (arith, length-append (rmp.write_map_len (length es)) (entries es)))

      go :
          (r : Result Header)
          → (r >>= λ h. ok (
            h,
            advance (length (entries es)) (advance (length (rmp.write_map_len (length es))) c),
          ))
            ≡ with_end (advance (length (packet es)) c) r
      go (ok h) = ap (λ d. ok (h, d)) here
      go (err x) = refl

  -- A response header in the order in which the server writes it.
  pub decode-response :
      (t s v : ℕ) (c : Cursor) (more : Bytes)
      → t < 2 ^ 15
      → s < 2 ^ 64
      → v < 2 ^ 64
      → rest c ≡ packet (type t ∷ sync s ∷ version v ∷ []) ++ more
      → decode rmp c
        ≡ ok (
          record { sync = s; iproto_type = t; error_code = 0; schema_version = v },
          advance (length (packet (type t ∷ sync s ∷ version v ∷ []))) c,
        )
  unfolding finish apply_all apply set_type
  decode-response t s v c more ht hs hv e =
      decode-entries (type t ∷ sync s ∷ version v ∷ []) c more (omega arith, (hs, (hv, tt)))
        (omega arith) e
      ∙ ground arith

  -- An error response: the type field is the error bit and a 15-bit code.
  decode-error_response :
      (code s v : ℕ) (c : Cursor) (more : Bytes)
      → code < 2 ^ 15
      → s < 2 ^ 64
      → v < 2 ^ 64
      → rest c ≡ packet (type (0x8000 + code) ∷ sync s ∷ version v ∷ []) ++ more
      → decode rmp c
        ≡ ok (
          record { sync = s; iproto_type = 0x8000; error_code = code; schema_version = v },
          advance (length (packet (type (0x8000 + code) ∷ sync s ∷ version v ∷ []))) c,
        )
  unfolding finish apply_all apply set_type
  decode-error_response code s v c more ht hs hv e =
      decode-entries (type (0x8000 + code) ∷ sync s ∷ version v ∷ []) c more
        (omega arith, (hs, (hv, tt))) (omega arith) e
      ∙ ground arith

  -- A request header has no schema version, so the decoder, which is for responses, refuses it.
  decode-encode :
      (h : Header) (c : Cursor) (more : Bytes)
      → h.iproto_type < 2 ^ 32
      → h.sync < 2 ^ 64
      → rest c ≡ encode rmp h ++ more
      → decode rmp c ≡ err invalid_data
  unfolding encode finish apply_all apply set_type
  decode-encode h c more ht hs e =
      decode-entries (type h.iproto_type ∷ sync h.sync ∷ []) c more (ht, (hs, tt)) (omega arith)
        (e ∙ simp (append_assoc, append-nil))
      ∙ ground arith
