-- ===== src/NetBox/SendQueue/Laws.antt =====
-- What the queue of tarantool/src/net_box/send_queue.rs writes to the transport.
use mathlib.Core.List.{append_assoc, append-nil}
use mathlib.Core.Path.{subst}
use tarantool_module.Base.{
  ℕ, ◌+◌, ◌%◌, ◌^◌, ◌≤◌, ◌≡◌, ◌≢◌, refl, sym, ap, ◌∙◌, Bool, true, false, List, [], ◌∷◌, ◌++◌,
  length, ltb, ◌==◌, ◌⊎◌, arith, ◌&&◌, le→ltb_false,
}
use tarantool_module.Io.{Bytes, ok, at_start}
use tarantool_module.Protocol.{next_index}
use tarantool_module.Protocol.Rmp.{Rmp}
use tarantool_module.Protocol.Api.{Request, encode}
use tarantool_module.Protocol.Buffer.{write_to_buffer}
use tarantool_module.Protocol.Buffer.Laws.{frame, at_end, write_to_buffer-at_end}
use tarantool_module.Protocol.Outgoing.{payload, Fits, frames, AllFit}
use tarantool_module.NetBox.SendQueue.{SendQueue, next_sync, after_write, send, write, flush_round}

-- An active queue that holds some bytes, with the other buffer empty.
pub record Holds (bs : Bytes) (q : SendQueue) : Type 0 where
  pub active : q.is_active ≡ true
  pub back : q.back_buffer ≡ at_end bs
  pub front : q.front_buffer ≡ at_start []

-- The requests are sent one after another.
abbrev pub send_all : {R : Type 0} → Rmp → List (Request R) → SendQueue → SendQueue
send_all rmp [] q = q
send_all rmp (r ∷ rs) q = send_all rmp rs (send rmp r q).1

nonempty : (bs : Bytes) → bs ≢ [] → (length bs == 0) ≡ false
nonempty bs n = ground arith

flush_round-Holds :
    (bs : Bytes) (q : SendQueue) (prev : ℕ) (in_time : Bool)
    → Holds bs q
    → bs ≢ []
    → (length bs ≤ prev) ⊎ (in_time ≡ false)
    → ((flush_round prev in_time q).0 ≡ write bs) × Holds [] (flush_round prev in_time q).1
unfolding flush_round
flush_round-Holds bs q prev in_time h n t =
    let some_bytes : (length bs == 0) ≡ false = nonempty bs n in
    let ended : (ltb prev (length bs) && in_time) ≡ false =
      ground (arith, le→ltb_false prev (length bs)) in
    rw (h.active, h.back, some_bytes, ended)
      (refl, record { active = refl; back = h.front; front = refl })

module _ {R : Type 0} (rmp : Rmp) where
  send-Holds :
      (r : Request R) (bs : Bytes) (q : SendQueue)
      → Fits rmp r q.sync
      → Holds bs q
      → ((send rmp r q).0 ≡ ok q.sync)
        × ((send rmp r q).1.sync ≡ (q.sync + 1) % 2 ^ 64)
        × Holds (bs ++ frame rmp (payload rmp r q.sync)) (send rmp r q).1
  unfolding send next_sync next_index after_write
  send-Holds r bs q f h =
      let e =
        ap (write_to_buffer rmp (encode rmp r q.sync)) h.back
        ∙ write_to_buffer-at_end rmp bs (encode rmp r q.sync) f.written f.short in
      rw (e, after_write) (refl, refl, record { active = h.active; back = refl; front = h.front })

  send_all-Holds :
      (rs : List (Request R)) (bs : Bytes) (q : SendQueue)
      → AllFit rmp q.sync rs
      → Holds bs q
      → Holds (bs ++ frames rmp q.sync rs) (send_all rmp rs q)
  send_all-Holds [] bs q f h = subst (λ x. Holds x q) (sym (append-nil bs)) h
  send_all-Holds (r ∷ rs) bs q f h =
      let (_, s, k) = send-Holds r bs q f.0 h in
      let sent = (send rmp r q).1 in
      let all =
        send_all-Holds rs (bs ++ frame rmp (payload rmp r q.sync)) sent
          (subst (λ n. AllFit rmp n rs) (sym s) f.1) k in
      subst (λ x. Holds x (send_all rmp rs sent))
        (append_assoc bs (frame rmp (payload rmp r q.sync)) (frames rmp sent.sync rs)
          ∙ ap (λ n. bs ++ (frame rmp (payload rmp r q.sync) ++ frames rmp n rs)) s)
        all

  -- Requests that serialise leave as frames, in the order in which they were sent and behind what
  -- the queue held, each with the sync of its turn, in one write: that of the next round that sees
  -- no data come in, or comes behind the flush interval. The queue is then empty.
  pub flush_round-send_all :
      (rs : List (Request R)) (bs : Bytes) (q : SendQueue) (prev : ℕ) (in_time : Bool)
      → AllFit rmp q.sync rs
      → Holds bs q
      → let bytes = bs ++ frames rmp q.sync rs in
        bytes ≢ []
        → (length bytes ≤ prev) ⊎ (in_time ≡ false)
        → ((flush_round prev in_time (send_all rmp rs q)).0 ≡ write bytes)
          × Holds [] (flush_round prev in_time (send_all rmp rs q)).1
  flush_round-send_all rs bs q prev in_time f h n t =
      flush_round-Holds (bs ++ frames rmp q.sync rs) (send_all rmp rs q) prev in_time
        (send_all-Holds rs bs q f h) n t
