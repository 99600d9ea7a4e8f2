-- ===== src/Protocol/Codec/Body.antt =====
-- The body of a response, decoded by `decode_call` of tarantool/src/network/protocol/codec.rs.
use mathlib.Core.List.{append_assoc}
use tarantool_module.Base.{
  ℕ, suc, ◌+◌, ◌^◌, ◌<◌, ◌≡◌, ◌≢◌, ap, ◌∙◌, List, [], ◌∷◌, ◌++◌, All, arith, length, length-append,
  ne→==_false,
}
use tarantool_module.Io.{
  Bytes, Cursor, Result, ok, err, ◌>>=◌, response_field_not_found, rest, advance,
}
use tarantool_module.Io.Reads.{rest-advance_prefix}
use tarantool_module.Msgpack.Format.{Value, IsValid}
use tarantool_module.Msgpack.Format as Format
use tarantool_module.Msgpack.Skip.{skip_value-encode}
use tarantool_module.Msgpack.Iter.{slice_prefix}
use tarantool_module.Protocol.Rmp.{Rmp}
use tarantool_module.Protocol.Codec.{find_data, decode_tuple, decode_call}

-- An entry of the body whose key is not `DATA`.
abbrev pub IsOther : ℕ × Value → Type 0
IsOther (k, v) = (k < 128) × (k ≢ 0x30) × IsValid v

-- The rounds of a loop over some entries, with `n` behind them.
abbrev pub rounds : List (ℕ × Value) → ℕ → ℕ
rounds [] n = n
rounds (_ ∷ es) n = suc (rounds es n)

pub rounds_lem : (es : List (ℕ × Value)) (n : ℕ) → length es + n ≡ rounds es n
rounds_lem [] n = omega arith
rounds_lem (_ ∷ es) n = omega (arith, rounds_lem es n)

module _ (rmp : Rmp) where
  abbrev pub field : ℕ → Value → Bytes
  field k v = rmp.write_pfix k ++ Format.encode rmp.to_u8 v

  abbrev pub others : List (ℕ × Value) → Bytes
  others [] = []
  others ((k, v) ∷ es) = field k v ++ others es

  find_data-others {ℓ} :
      {A : Type ℓ} (read : Cursor → Result A) (missing : Result A) (es : List (ℕ × Value)) (n : ℕ)
      (c : Cursor) (tail : Bytes)
      → All IsOther es
      → rest c ≡ others es ++ tail
      → find_data rmp read missing (rounds es n) c
        ≡ find_data rmp read missing n (advance (length (others es)) c)
  unfolding find_data
  find_data-others read missing [] n c tail h e =
      ap (λ (p : ℕ). find_data rmp read missing n (record c { pos = p })) (omega arith)
  find_data-others read missing ((k, v) ∷ es) n c tail h e =
      let front = rmp.write_pfix k in
      let value = Format.encode rmp.to_u8 v in
      let e1 : rest c ≡ front ++ (value ++ (others es ++ tail)) = simp append_assoc at e in
      let c1 : Cursor = advance (length front) c in
      let e2 : rest c1 ≡ value ++ (others es ++ tail) =
        rest-advance_prefix c front (value ++ (others es ++ tail)) e1 in
      let c2 : Cursor = advance (length value) c1 in
      let e3 : rest c2 ≡ others es ++ tail = rest-advance_prefix c1 value (others es ++ tail) e2 in
      rw (rmp.read_pfix-Reads k h.0.0 c (value ++ (others es ++ tail)) e1) (
        rw (◌>>=◌, ne→==_false k 0x30 h.0.1)
          (rw (skip_value-encode rmp.markers v c1 (others es ++ tail) h.0.2 e2) (
            find_data-others read missing es n c2 tail h.1 e3
            ∙ ap (λ p. find_data rmp read missing n (record c { pos = p }))
                (omega
                  (arith, length-append (front ++ value) (others es), length-append front value)))))

  decode_call-rounds :
      (es : List (ℕ × Value)) (n : ℕ) (v : Value) (c : Cursor) (more : Bytes)
      → All IsOther es
      → IsValid v
      → rounds es (suc n) < 2 ^ 32
      → rest c ≡ rmp.write_map_len (rounds es (suc n)) ++ (others es ++ (field 0x30 v ++ more))
      → decode_call rmp c ≡ ok (Format.encode rmp.to_u8 v)
  unfolding decode_call find_data decode_tuple
  decode_call-rounds es n v c more h valid small e =
      let head = rmp.write_map_len (rounds es (suc n)) in
      let value = Format.encode rmp.to_u8 v in
      let tail : Bytes = field 0x30 v ++ more in
      let c1 : Cursor = advance (length head) c in
      let e1 : rest c1 ≡ others es ++ tail = rest-advance_prefix c head (others es ++ tail) e in
      let c2 : Cursor = advance (length (others es)) c1 in
      let e2 : rest c2 ≡ rmp.write_pfix 0x30 ++ (value ++ more) =
        rest-advance_prefix c1 (others es) tail e1
        ∙ append_assoc (rmp.write_pfix 0x30) value more in
      let c3 : Cursor = advance (length (rmp.write_pfix 0x30)) c2 in
      let e3 : rest c3 ≡ value ++ more =
        rest-advance_prefix c2 (rmp.write_pfix 0x30) (value ++ more) e2 in
      rw (rmp.read_map_len-Reads (rounds es (suc n)) small c (others es ++ tail) e) (
        rw (find_data-others _ (err response_field_not_found) es (suc n) c1 tail h e1) (
          rw (rmp.read_pfix-Reads 0x30 (omega arith) c2 (value ++ more) e2) (
            rw (skip_value-encode rmp.markers v c3 more valid e3)
              (ap (λ bs. ok bs) (slice_prefix rmp.markers c3 value more e3)))))

  -- The answer to a call: entries with other keys are skipped with their values, and what stands
  -- under `DATA` is returned as the bytes of exactly one value, whatever stands behind it.
  decode_call-data :
      (es : List (ℕ × Value)) (n : ℕ) (v : Value) (c : Cursor) (more : Bytes)
      → All IsOther es
      → IsValid v
      → length es + suc n < 2 ^ 32
      → rest c ≡ rmp.write_map_len (length es + suc n) ++ (others es ++ (field 0x30 v ++ more))
      → decode_call rmp c ≡ ok (Format.encode rmp.to_u8 v)
  decode_call-data es n v c more h valid small e =
      decode_call-rounds es n v c more h valid (rw rounds_lem at small) (rw rounds_lem at e)
