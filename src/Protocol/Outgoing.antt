-- ===== src/Protocol/Outgoing.antt =====
-- The bytes that the handler of tarantool/src/network/protocol/mod.rs sends.
use mathlib.Core.List.{append_assoc, append-nil}
use mathlib.Core.Path.{ap₂, subst}
use tarantool_module.Base.{
  ℕ, ◌+◌, ◌%◌, ◌^◌, ◌<◌, ◌≡◌, sym, ap, ◌∙◌, List, [], ◌∷◌, ◌++◌, length, Bool-cases, inl, inr,
}
use tarantool_module.Io.{Bytes, Error, ok, err}
use tarantool_module.Protocol.Rmp.{Rmp}
use tarantool_module.Protocol.Api.{Request, encode}
use tarantool_module.Protocol.Buffer.Laws.{frame, write_to_buffer-frame, write_to_buffer-failed}
use tarantool_module.Protocol.{Protocol, is_ready, next_index, process_pending_data, send_request}

-- The bytes that the handler still has to send, in their order.
abbrev pub stream : Protocol → Bytes
stream p = p.outgoing ++ p.pending_outgoing

-- What a request serialises to, with its header.
abbrev pub payload : {R : Type 0} → Rmp → Request R → ℕ → Bytes
payload rmp request sync = (encode rmp request sync).written

-- The request serialises, into less than 2 ^ 32 bytes.
pub record Fits {R : Type 0} (rmp : Rmp) (request : Request R) (sync : ℕ) : Type 0 where
  pub written : (encode rmp request sync).outcome ≡ ok tt
  pub short : length (payload rmp request sync) < 2 ^ 32

-- The state after a request is sent: its frame joins the queue, which is moved out if the
-- connection is ready, and the sync moves on.
abbrev pub queued : Rmp → Bytes → Protocol → Protocol
queued rmp bs p =
    let q =
      process_pending_data (record p { pending_outgoing = p.pending_outgoing ++ frame rmp bs }) in
    record q { sync = next_index q.sync }

sync-process_pending_data : (p : Protocol) → (process_pending_data p).sync ≡ p.sync
unfolding process_pending_data
sync-process_pending_data p = elim (Bool-cases (is_ready p)) [
  | inl e ↦ rw (e, process_pending_data)
  | inr e ↦ rw (e, process_pending_data)
]

stream-process_pending_data : (p : Protocol) → stream (process_pending_data p) ≡ stream p
unfolding process_pending_data
stream-process_pending_data p = elim (Bool-cases (is_ready p)) [
  | inl e ↦ rw (e, process_pending_data) (append-nil (stream p))
  | inr e ↦ rw (e, process_pending_data)
]

module _ {R : Type 0} (rmp : Rmp) (request : Request R) (p : Protocol) where
  -- A request that serialises is answered by the handler's sync, which then moves on, and its frame
  -- joins the end of the queue.
  pub send_request-queued :
      Fits rmp request p.sync
      → send_request rmp request p ≡ (ok p.sync, queued rmp (payload rmp request p.sync) p)
  unfolding send_request
  send_request-queued f =
      let (c, e, b) =
        write_to_buffer-frame rmp p.pending_outgoing (encode rmp request p.sync) f.written
          f.short in
      rw e (
        rw b (
          ap (λ n. (ok n, queued rmp (payload rmp request p.sync) p))
            (sync-process_pending_data (record p {
              pending_outgoing = p.pending_outgoing ++ frame rmp (payload rmp request p.sync);
            }))))

  -- So what is still to be sent grows by that one frame, at its end.
  pub stream-send_request :
      Fits rmp request p.sync
      → stream (send_request rmp request p).1 ≡ stream p ++ frame rmp (payload rmp request p.sync)
  stream-send_request f =
      ap (λ r. stream r.1) (send_request-queued f)
      ∙ stream-process_pending_data (record p {
        pending_outgoing = p.pending_outgoing ++ frame rmp (payload rmp request p.sync);
      })
      ∙ sym (append_assoc p.outgoing p.pending_outgoing (frame rmp (payload rmp request p.sync)))

  -- A request whose serialisation fails is answered by the error, and what it wrote so far, with
  -- the placeholder of its length, stays in the queue.
  pub send_request-failed :
      (e : Error)
      → (encode rmp request p.sync).outcome ≡ err e
      → send_request rmp request p ≡ (
        err e,
        record p {
          pending_outgoing = p.pending_outgoing ++ (rmp.write_u32 0 ++ payload rmp request p.sync);
        },
      )
  unfolding send_request
  send_request-failed e failed =
      let (c, w, b) =
        write_to_buffer-failed rmp p.pending_outgoing (encode rmp request p.sync) e failed in
      rw w (rw b)

-- A list of requests, sent one after another, each under the sync of its turn.
unfoldable pub send_all : {R : Type 0} → Rmp → List (Request R) → Protocol → Protocol
send_all rmp [] p = p
send_all rmp (r ∷ rs) p = send_all rmp rs (send_request rmp r p).1

-- The frames of requests from a sync on.
abbrev pub frames : {R : Type 0} → Rmp → ℕ → List (Request R) → Bytes
frames rmp sync [] = []
frames rmp sync (r ∷ rs) = frame rmp (payload rmp r sync) ++ frames rmp ((sync + 1) % 2 ^ 64) rs

abbrev pub AllFit : {R : Type 0} → Rmp → ℕ → List (Request R) → Type 0
AllFit rmp sync [] = Unit {0}
AllFit rmp sync (r ∷ rs) = Fits rmp r sync × AllFit rmp ((sync + 1) % 2 ^ 64) rs

sync-send_request :
    {R : Type 0} (rmp : Rmp) (r : Request R) (p : Protocol)
    → Fits rmp r p.sync
    → (send_request rmp r p).1.sync ≡ (p.sync + 1) % 2 ^ 64
unfolding next_index
sync-send_request rmp r p f =
    ap (λ s. s.1.sync) (send_request-queued rmp r p f)
    ∙ ap next_index (
        sync-process_pending_data
          (record p { pending_outgoing = p.pending_outgoing ++ frame rmp (payload rmp r p.sync) }))

-- Requests leave in the order in which they were sent, in whatever phase the connection is: what is
-- still to be sent grows by their frames, one after another, each with the sync of its turn.
pub stream-send_all :
    {R : Type 0} (rmp : Rmp) (rs : List (Request R)) (p : Protocol)
    → AllFit rmp p.sync rs
    → stream (send_all rmp rs p) ≡ stream p ++ frames rmp p.sync rs
unfolding send_all
stream-send_all rmp [] p h = sym (append-nil (stream p))
stream-send_all rmp (r ∷ rs) p h =
    let q = (send_request rmp r p).1 in
    let s : q.sync ≡ (p.sync + 1) % 2 ^ 64 = sync-send_request rmp r p h.0 in
    stream-send_all rmp rs q (subst (λ n. AllFit rmp n rs) (sym s) h.1)
    ∙ ap₂ (λ t n. t ++ frames rmp n rs) (stream-send_request rmp r p h.0) s
    ∙ append_assoc (stream p) (frame rmp (payload rmp r p.sync))
        (frames rmp ((p.sync + 1) % 2 ^ 64) rs)
