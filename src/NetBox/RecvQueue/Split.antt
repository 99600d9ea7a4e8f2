-- ===== src/NetBox/RecvQueue/Split.antt =====
-- How tarantool/src/net_box/recv_queue.rs splits what it read into messages.
use tarantool_module.Base.{
  ℕ, zero, suc, ◌+◌, ◌-◌, ◌^◌, ◌<◌, ◌≡◌, ◌≢◌, refl, sym, ap, ◌∙◌, List, [], ◌∷◌, ◌++◌, Option, none,
  some, true, false, if◌then◌else◌, ◌==◌, length, take, drop, map, concat, All, arith,
  length-append, le→ltb_false, lt→ltb, ne→==_false, eq→==, take-append_length, drop-append_length,
  drop-drop, take-append-drop,
}
use mathlib.Core.List.{append_assoc, append-nil}
use mathlib.Core.Path.{ap₂, subst}
use tarantool_module.Io.{Bytes, Cursor, ok, ◌>>=◌, rest, advance}
use tarantool_module.Io.Reads.{rest-advance_prefix}
use tarantool_module.Msgpack.Iter.{slice, slice_prefix}
use tarantool_module.Protocol.Rmp.{Rmp}
use tarantool_module.Protocol.Buffer.Laws.{frame}
use tarantool_module.NetBox.RecvQueue.{
  RecvQueue, split, read_into, keep_overflow, dispatch_all, process_data, pull,
}

-- A message whose length fits its field.
abbrev pub Fits : Bytes → Type 0
Fits m = length m < 2 ^ 32

abbrev pub contents : Bytes → List (ℕ × ℕ) → List Bytes
contents buffer chunks = map (λ r. slice r.0 r.1 buffer) chunks

not_nil : (bs : Bytes) → bs ≢ [] → 0 < length bs
not_nil [] h = absurd (h refl)
not_nil (b ∷ bs) h = omega arith

module _ (rmp : Rmp) where
  abbrev pub frames : List Bytes → Bytes
  frames ms = concat (map (frame rmp) ms)

  -- The position behind the length of a message.
  abbrev body_start : Cursor → Bytes → ℕ
  body_start c m = c.pos + length (rmp.write_u32 (length m))

  module _ (fuel n data_len : ℕ) (c c1 : Cursor) (h : rmp.read_u32 c ≡ ok (n, c1)) where
    split_last :
        c1.pos + n ≡ data_len
        → split rmp (suc fuel) data_len c ≡ ok ((c1.pos, c1.pos + n) ∷ [], none)
    unfolding split
    split_last e = rw h (
        rw (◌>>=◌, le→ltb_false data_len (c1.pos + n) (omega arith))
          (rw (eq→== (c1.pos + n) data_len e) refl))

    split_more :
        (chunks : List (ℕ × ℕ)) (overflow : Option (ℕ × ℕ))
        → c1.pos + n < data_len
        → split rmp fuel data_len (record c { pos = c1.pos + n }) ≡ ok (chunks, overflow)
        → split rmp (suc fuel) data_len c ≡ ok ((c1.pos, c1.pos + n) ∷ chunks, overflow)
    unfolding split
    split_more chunks overflow e more = rw h (
        rw (◌>>=◌, le→ltb_false data_len (c1.pos + n) (omega arith))
          (rw (ne→==_false (c1.pos + n) data_len (omega arith)) (rw (more, ◌>>=◌) refl)))

    split_over :
        data_len < c1.pos + n → split rmp (suc fuel) data_len c ≡ ok ([], some (c.pos, data_len))
    unfolding split
    split_over e = rw h (rw (◌>>=◌, lt→ltb data_len (c1.pos + n) e) refl)

  frame_end :
      (m : Bytes) (p : ℕ)
      → p + length (rmp.write_u32 (length m)) + length m ≡ p + length (frame rmp m)
  frame_end m p = omega (arith, length-append (rmp.write_u32 (length m)) m)

  -- When whole messages were read, at least one, the loop splits off each of them, in order.
  split-frames :
      (fuel : ℕ) (m : Bytes) (ms : List Bytes) (c : Cursor) (stale : Bytes)
      → length ms < fuel
      → Fits m
      → All Fits ms
      → rest c ≡ frames (m ∷ ms) ++ stale
      → (chunks : List (ℕ × ℕ)) × (split rmp fuel (c.pos + length (frames (m ∷ ms))) c
          ≡ ok (chunks, none))
        × (contents c.bytes chunks ≡ m ∷ ms)
  split-frames zero m ms c stale f h hs e = absurd (omega arith)
  split-frames (suc fuel) m [] c stale f h hs e =
      let size = rmp.write_u32 (length m) in
      let e1 : rest c ≡ size ++ (m ++ stale) = simp (append_assoc, append-nil) at e in
      let c1 : Cursor = advance (length size) c in
      (
        (c1.pos, c1.pos + length m) ∷ [],
        split_last fuel (length m) (c.pos + length (frames (m ∷ []))) c c1
            (rmp.read_u32-Reads (length m) h c (m ++ stale) e1)
            (omega (arith, frame_end m c.pos, length-append (frame rmp m) [])),
        ap (λ l. l ∷ [])
            (slice_prefix rmp.markers c1 m stale (rest-advance_prefix c size (m ++ stale) e1)),
      )
  split-frames (suc fuel) m (m' ∷ ms) c stale f h hs e =
      let size = rmp.write_u32 (length m) in
      let tail : Bytes = frames (m' ∷ ms) ++ stale in
      let e1 : rest c ≡ size ++ (m ++ tail) =
        e ∙ append_assoc (frame rmp m) (frames (m' ∷ ms)) stale ∙ append_assoc size m tail in
      let c1 : Cursor = advance (length size) c in
      let e2 : rest c1 ≡ m ++ tail = rest-advance_prefix c size (m ++ tail) e1 in
      let c2 : Cursor = advance (length m) c1 in
      let total : ℕ = c.pos + length (frames (m ∷ m' ∷ ms)) in
      let (chunks, more, same) =
        split-frames fuel m' ms c2 stale (omega arith) hs.0 hs.1
          (rest-advance_prefix c1 m tail e2) in
      (
        (c1.pos, c1.pos + length m) ∷ chunks,
        split_more fuel (length m) total c c1 (rmp.read_u32-Reads (length m) h c (m ++ tail) e1)
            chunks none
            (omega (
              arith,
              frame_end m c.pos,
              length-append (frame rmp m) (frames (m' ∷ ms)),
              length-append (frame rmp m') (frames ms),
              length-append (rmp.write_u32 (length m')) m',
              rmp.length-write_u32 (length m'),
            ))
            (subst (λ d. split rmp fuel d c2 ≡ ok (chunks, none))
              (omega (arith, frame_end m c.pos, length-append (frame rmp m) (frames (m' ∷ ms))))
              more),
        ap₂ ◌∷◌ (slice_prefix rmp.markers c1 m tail e2) same,
      )

  read_into-append :
      (part more stale : Bytes)
      → read_into (part ++ stale) (length part) more ≡ part ++ (more ++ drop (length more) stale)
  read_into-append part more stale = ap₂ ◌++◌ (take-append_length part stale) (
      ap (◌++◌ more) (
        sym (drop-drop (length part) (length more) (part ++ stale))
        ∙ ap (drop (length more)) (drop-append_length part stale)))

  -- A read none of whose messages is complete leaves the buffer as it is, and its own bytes as those
  -- that are left over.
  process_data_over :
      (data_len : ℕ) (q : RecvQueue) (c1 : Cursor) (n : ℕ)
      → rmp.read_u32 (record { bytes = q.buffer; pos = 0 }) ≡ ok (n, c1)
      → suc data_len < c1.pos + n
      → process_data rmp (suc data_len) q
        ≡ ok (true, [], record q { chunks = []; read_offset = suc data_len })
  unfolding process_data keep_overflow dispatch_all
  process_data_over data_len q c1 n size short =
      let minus_zero : suc data_len - 0 ≡ suc data_len = omega arith in
      rw (split_over data_len n (suc data_len) (record { bytes = q.buffer; pos = 0 }) c1 size short)
        (rw (◌>>=◌, lt→ltb 0 (suc data_len) (omega arith))
          (ap
              (λ (k : ℕ). ok (
                true,
                [],
                record q {
                  buffer = take k q.buffer ++ drop k q.buffer;
                  chunks = [];
                  read_offset = k;
                },
              ))
              minus_zero
            ∙ ap
                (λ b.
                  ok (true, [], record q { buffer = b; chunks = []; read_offset = suc data_len }))
                (take-append-drop (suc data_len) q.buffer)))

  pull_active :
      (x : ℕ) (xs : Bytes) (q : RecvQueue)
      → q.is_active ≡ true
      → pull rmp (x ∷ xs) q
        ≡ process_data rmp
            (length (x ∷ xs))
            (record q { buffer = read_into q.buffer q.read_offset (x ∷ xs) })
  unfolding pull
  pull_active x xs q active =
      let q1 : RecvQueue = record q { buffer = read_into q.buffer q.read_offset (x ∷ xs) } in
      let d : ℕ = length (x ∷ xs) in
      ap
        (λ b.
          if b
          then (if d == 0 then ok (false, [], q1) else process_data rmp d q1)
          else ok (false, [], q))
        active
      ∙ ap (λ b. if b then ok (false, [], q1) else process_data rmp d q1)
          (ne→==_false d 0 (omega arith))

  -- A message that arrives in two reads is lost: behind the second read it stands in the buffer as a
  -- whole, but the loop, which compares its end with the number of bytes of that read alone, takes
  -- it for incomplete. Nobody gets it, and the next read overwrites its last bytes, as many as the
  -- first read had.
  pub pull-split_frame :
      (m part more stale : Bytes) (q : RecvQueue)
      → Fits m
      → q.is_active ≡ true
      → q.buffer ≡ part ++ stale
      → q.read_offset ≡ length part
      → part ++ more ≡ frame rmp m
      → part ≢ []
      → more ≢ []
      → (q' : RecvQueue) × (pull rmp more q ≡ ok (true, [], q'))
        × (q'.buffer ≡ frame rmp m ++ drop (length more) stale)
        × (q'.chunks ≡ [])
        × (q'.read_offset + length part ≡ length (frame rmp m))
  pull-split_frame m part [] stale q h active buffer offset whole p n = absurd (n refl)
  pull-split_frame m part (x ∷ xs) stale q h active buffer offset whole p n =
      let size = rmp.write_u32 (length m) in
      let now : Bytes = read_into q.buffer q.read_offset (x ∷ xs) in
      let left : Bytes = drop (length (x ∷ xs)) stale in
      let same : now ≡ frame rmp m ++ left =
        rw (buffer, offset)
          (read_into-append part (x ∷ xs) stale
            ∙ sym (append_assoc part (x ∷ xs) left)
            ∙ ap (λ l. l ++ left) whole) in
      let c : Cursor = record { bytes = now; pos = 0 } in
      let lengths = length-append part (x ∷ xs) in
      let total = ap length whole in
      (
        _,
        pull_active x xs q active
            ∙ process_data_over (length xs) (record q { buffer = now }) (advance (length size) c)
                (length m)
                (rmp.read_u32-Reads (length m) h c (m ++ left) (same ∙ append_assoc size m left))
                (omega (arith, lengths, total, frame_end m 0, not_nil part p)),
        same,
        refl,
        omega (arith, lengths, total),
      )
