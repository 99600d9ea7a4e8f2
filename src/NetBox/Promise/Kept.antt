-- ===== src/NetBox/Promise/Kept.antt =====
-- From the bytes of a message to the promise of tarantool/src/net_box/promise.rs that waits for it.
use mathlib.Core.List.{append_assoc, append-nil}
use tarantool_module.Base.{
  ℕ, suc, ◌+◌, ◌^◌, ◌<◌, ◌≡◌, ◌≢◌, refl, sym, ap, ◌∙◌, List, [], ◌∷◌, ◌++◌, All, arith, length,
  length-append, ne→==_false, some, none, true, drop,
}
use tarantool_module.Base.Maps
use tarantool_module.Io.{Bytes, Cursor, Result, ok, ◌>>=◌, rest, advance, at_start}
use tarantool_module.Io.Reads.{rest-advance_prefix}
use tarantool_module.Msgpack.Format.{Value, IsValid}
use tarantool_module.Msgpack.Format as Format
use tarantool_module.Msgpack.Skip.{skip_value-encode}
use tarantool_module.Msgpack.Iter.{slice_prefix}
use tarantool_module.Protocol.Rmp.{Rmp}
use tarantool_module.Protocol.Header.{Header}
use tarantool_module.Protocol.Codec.Body.{field, others, rounds, rounds_lem}
use tarantool_module.Protocol.Header.Laws.{packet, type, sync, version, decode-response}
use tarantool_module.NetBox.RecvQueue.{RecvQueue, consumed, dispatch}
use tarantool_module.NetBox.Promise.{
  Promise, Found, consume_field, consume_fields, consume_body, consume, consume_data, signal,
}

-- An entry that `consume` ignores: its key is not `DATA`, `ERROR` or `ERROR_EXT`.
abbrev pub IsIgnored : ℕ × Value → Type 0
IsIgnored (k, v) = (k < 128) × (k ≢ 0x30) × (k ≢ 0x31) × (k ≢ 0x52) × IsValid v

-- The body of a response with `DATA` among other entries
abbrev pub answer : Rmp → List (ℕ × Value) → Value → List (ℕ × Value) → Bytes
answer rmp before v after =
    rmp.write_map_len (length before + suc (length after))
    ++ (others rmp before ++ (field rmp 0x30 v ++ others rmp after))

module _ (rmp : Rmp) (header : Header) where
  consume_field-other :
      (k : ℕ) (bs : Bytes) (found : Found)
      → k ≢ 0x30
      → k ≢ 0x31
      → k ≢ 0x52
      → consume_field rmp header k bs found ≡ ok found
  unfolding consume_field
  consume_field-other k bs found a b c =
      rw (ne→==_false k 0x30 a) (rw (ne→==_false k 0x31 b) (rw (ne→==_false k 0x52 c) refl))

  consume_field-data :
      (bs : Bytes) (found : Found)
      → consume_field rmp header 0x30 bs found ≡ ok (record found { contents = some bs })
  unfolding consume_field
  consume_field-data bs found = refl

  -- One round of the loop, over an entry of the map
  consume_fields-field :
      (k n : ℕ) (v : Value) (found : Found) (c : Cursor) (tail : Bytes)
      → k < 128
      → IsValid v
      → rest c ≡ field rmp k v ++ tail
      → consume_fields rmp header (suc n) found c ≡ (
          consume_field rmp header k (Format.encode rmp.to_u8 v) found >>= λ found'.
          consume_fields rmp header n found' (advance (length (field rmp k v)) c))
  unfolding consume_fields
  consume_fields-field k n v found c tail small valid e =
      let front = rmp.write_pfix k in
      let value = Format.encode rmp.to_u8 v in
      let e1 : rest c ≡ front ++ (value ++ tail) = simp append_assoc at e in
      let c1 : Cursor = advance (length front) c in
      let e2 : rest c1 ≡ value ++ tail = rest-advance_prefix c front (value ++ tail) e1 in
      rw (rmp.read_pfix-Reads k small c (value ++ tail) e1) (
        rw (skip_value-encode rmp.markers v c1 tail valid e2) (
          rw (slice_prefix rmp.markers c1 value tail e2) (
            ap
              (λ p. consume_field rmp header k value found >>= λ found'.
                consume_fields rmp header n found' (record c { pos = p }))
              (omega (arith, length-append front value)))))

  consume_fields-others :
      (es : List (ℕ × Value)) (n : ℕ) (found : Found) (c : Cursor) (tail : Bytes)
      → All IsIgnored es
      → rest c ≡ others rmp es ++ tail
      → consume_fields rmp header (rounds es n) found c
        ≡ consume_fields rmp header n found (advance (length (others rmp es)) c)
  consume_fields-others [] n found c tail h e =
      ap (λ (p : ℕ). consume_fields rmp header n found (record c { pos = p })) (omega arith)
  consume_fields-others ((k, v) ∷ es) n found c tail ((small, a, b, d, valid), h) e =
      let e1 : rest c ≡ field rmp k v ++ (others rmp es ++ tail) =
        e ∙ append_assoc (field rmp k v) (others rmp es) tail in
      let c1 : Cursor = advance (length (field rmp k v)) c in
      consume_fields-field k (rounds es n) v found c (others rmp es ++ tail) small valid e1
      ∙ ap (λ r. r >>= λ f. consume_fields rmp header (rounds es n) f c1)
          (consume_field-other k (Format.encode rmp.to_u8 v) found a b d)
      ∙ consume_fields-others es n found c1 tail h
          (rest-advance_prefix c (field rmp k v) (others rmp es ++ tail) e1)
      ∙ ap (λ p. consume_fields rmp header n found (record c { pos = p }))
          (omega (arith, length-append (field rmp k v) (others rmp es)))

  module _ (before after : List (ℕ × Value)) (v : Value) (others_before : All IsIgnored before)
      (others_after : All IsIgnored after) (valid : IsValid v)
      (small : length before + suc (length after) < 2 ^ 32) where
    consume_body-answer :
        consume_body rmp header (answer rmp before v after)
        ≡ ok (record { contents = some (Format.encode rmp.to_u8 v); error = none })
    unfolding consume_body consume_fields
    consume_body-answer =
        let n : ℕ = length before + suc (length after) in
        let c : Cursor = at_start (answer rmp before v after) in
        let head = rmp.write_map_len n in
        let last : Bytes = field rmp 0x30 v ++ others rmp after in
        let c1 : Cursor = advance (length head) c in
        let e1 : rest c1 ≡ others rmp before ++ last =
          rest-advance_prefix c head (others rmp before ++ last) refl in
        let c2 : Cursor = advance (length (others rmp before)) c1 in
        let e2 : rest c2 ≡ last = rest-advance_prefix c1 (others rmp before) last e1 in
        let c3 : Cursor = advance (length (field rmp 0x30 v)) c2 in
        let e3 : rest c3 ≡ others rmp after ++ [] =
          rest-advance_prefix c2 (field rmp 0x30 v) (others rmp after) e2
          ∙ sym (append-nil (others rmp after)) in
        let none_yet : Found = record { contents = none; error = none } in
        let read : Found = record { contents = some (Format.encode rmp.to_u8 v); error = none } in
        rw (rmp.read_map_len-Reads n small c (others rmp before ++ last) refl) (
          ap (λ k. consume_fields rmp header k none_yet c1) (rounds_lem before (suc (length after)))
          ∙ consume_fields-others before (suc (length after)) none_yet c1 last others_before e1
          ∙ consume_fields-field 0x30 (length after) v none_yet c2 (others rmp after) (omega arith)
              valid e2
          ∙ ap (λ r. r >>= λ f. consume_fields rmp header (length after) f c3)
              (consume_field-data (Format.encode rmp.to_u8 v) none_yet)
          ∙ ap (λ k. consume_fields rmp header k read c3) (omega (arith, rounds_lem after 0))
          ∙ consume_fields-others after 0 read c3 [] others_after e3)

    consume-answer :
        {T : Type 0} (decode : Bytes → Result T) (p : Promise T)
        → consume rmp header decode (answer rmp before v after) p
          ≡ record p { result = some (decode (Format.encode rmp.to_u8 v)); signals = p.signals + 1 }
    unfolding consume consume_data signal
    consume-answer decode p = rw (consume_body-answer, consume) refl

-- The response to an asynchronous call keeps its promise: a message whose sync belongs to a promise
-- that lives, and to no fiber that waits, is handed to that promise alone, and the promise then has
-- what its decoder makes of the one value under `DATA`, and signals once. The other entries of the
-- body may have any keys but those of errors, and any values.
pub dispatch-consume :
    {T : Type 0} (rmp : Rmp) (decode : Bytes → Result T) (q : RecvQueue) (p : Promise T)
    (start t s n : ℕ) (before after : List (ℕ × Value)) (v : Value) (more : Bytes)
    → t < 2 ^ 15
    → s < 2 ^ 64
    → n < 2 ^ 64
    → All IsIgnored before
    → All IsIgnored after
    → IsValid v
    → length before + suc (length after) < 2 ^ 32
    → Maps.get s q.cond_map ≡ none
    → Maps.get s q.async_consumers ≡ some true
    → let head = packet rmp (type t ∷ sync s ∷ version n ∷ []) in
      let body = answer rmp before v after in
      let header : Header = record {
        sync = s;
        iproto_type = t;
        error_code = 0;
        schema_version = n;
      } in
      drop start q.buffer ≡ head ++ (body ++ more)
      → (dispatch rmp (start, start + length head + length body) q
          ≡ ok (
            consumed header body ∷ [],
            record q { async_consumers = Maps.remove s q.async_consumers },
          ))
        × (consume rmp header decode body p ≡ record p {
          result = some (decode (Format.encode rmp.to_u8 v));
          signals = p.signals + 1;
        })
unfolding dispatch
dispatch-consume rmp decode q p start t s n before after v more ht hs hn hb ha valid small fiber
      promise message =
    let head = packet rmp (type t ∷ sync s ∷ version n ∷ []) in
    let body = answer rmp before v after in
    let header : Header = record {
      sync = s;
      iproto_type = t;
      error_code = 0;
      schema_version = n;
    } in
    let c : Cursor = record { bytes = q.buffer; pos = start } in
    (
      rw (decode-response rmp t s n c (body ++ more) ht hs hn message) (
          rw (◌>>=◌, fiber, promise)
            (rw
              (slice_prefix rmp.markers (advance (length head) c) body more
                (rest-advance_prefix c head (body ++ more) message))
              refl)),
      consume-answer rmp header before after v hb ha valid small decode p,
    )
