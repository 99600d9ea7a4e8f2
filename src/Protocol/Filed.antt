-- ===== src/Protocol/Filed.antt =====
-- What the handler of tarantool/src/network/protocol/mod.rs keeps of the responses it holds.
use tarantool_module.Base.{
  ℕ, ◌≡◌, ◌≢◌, refl, [], Option, none, some, ltb, Bool-cases, inl, inr, arith, ==_self,
}
use tarantool_module.Base.Maps
use tarantool_module.Io.{Bytes, Cursor, Error, Result, ok, err, at_start}
use tarantool_module.Protocol.Rmp.{Rmp}
use tarantool_module.Protocol.Header.{Header, error_type}
use tarantool_module.Protocol.Header
use tarantool_module.Protocol.Api.{Request, encode}
use tarantool_module.Protocol.Buffer.{write_to_buffer}
use tarantool_module.Protocol.{
  Protocol, Phase, init, auth_wait, ready, process_pending_data, send_request, after_write,
  start_auth, settle, process_greeting, process_auth, process_response, process_message,
  process_incoming, read_response, Response, body, take_response, answer, take_outgoing_data,
}

-- Nothing that was held is lost.
abbrev pub Keeps : Protocol → Protocol → Type 0
Keeps p q = (j : ℕ) → Maps.get j p.incoming ≢ none → Maps.get j q.incoming ≢ none

incoming-process_pending_data : (p : Protocol) → (process_pending_data p).incoming ≡ p.incoming
unfolding process_pending_data
incoming-process_pending_data p = ground arith

incoming-start_auth :
    (rmp : Rmp) (p : Protocol) (r : Result (Unit {0}) × Cursor)
    → (start_auth rmp p r).1.incoming ≡ p.incoming
unfolding start_auth
incoming-start_auth rmp p (r, c) = refl

pub incoming-send_request :
    {R : Type 0} (rmp : Rmp) (request : Request R) (p : Protocol)
    → (send_request rmp request p).1.incoming ≡ p.incoming
unfolding send_request after_write
incoming-send_request rmp request p = go (write_to_buffer rmp (encode rmp request p.sync) _)
  where
    go : (r : Result (Unit {0}) × Cursor) → (after_write rmp p r).1.incoming ≡ p.incoming
    go (err e, c) = refl
    go (ok _, c) = incoming-process_pending_data (record p { pending_outgoing = c.bytes })

module _ (rmp : Rmp) (message : Cursor) (p : Protocol) where
  incoming-process_greeting : (process_greeting rmp message p).1.incoming ≡ p.incoming
  unfolding process_greeting start_auth
  incoming-process_greeting = ground arith

  incoming-process_auth : (process_auth rmp message p).1.incoming ≡ p.incoming
  unfolding process_auth
  incoming-process_auth = ground arith

  -- What an answer of the handler says of the responses.
  pub record Filed (r : Result (Option ℕ) × Protocol) : Type 0 where
    pub keeps : Keeps p r.1
    pub filed : (s : ℕ) → r.0 ≡ ok (some s) → Maps.get s r.1.incoming ≢ none

  settle-Filed {ℓ} :
      {A : Type ℓ} (r : Result A × Protocol)
      → r.1.incoming ≡ p.incoming
      → Filed (settle rmp (λ _. none) r)
  settle-Filed (ok a, q) e = record {
    keeps = λ j h. rw (incoming-process_pending_data q, e) h;
    filed = λ s h. cc;
  }
  settle-Filed (err x, q) e = record { keeps = λ j h. rw e h; filed = λ s h. cc }

  stored-Filed :
      (s : ℕ) (r : Response)
      → Filed (
          settle rmp (λ sync. some sync) (ok s, record p { incoming = Maps.insert s r p.incoming }))
  stored-Filed s r = record {
    keeps = λ j h.
        rw
          (
            incoming-process_pending_data (record p { incoming = Maps.insert s r p.incoming }),
            Maps.get-insert s j r p.incoming,
          )
          (ground arith);
    filed = λ j h.
        rw
          (
            incoming-process_pending_data (record p { incoming = Maps.insert s r p.incoming }),
            Maps.get-insert s j r p.incoming,
          )
          (ground arith);
  }

  process_response-Filed : Filed (settle rmp (λ sync. some sync) (process_response rmp message p))
  unfolding process_response
  process_response-Filed = go (Header.decode rmp message) refl
    where
      kept : (x : Error) → Filed (settle rmp (λ sync. some sync) (err x, p))
      kept x = record { keeps = λ j h. h; filed = λ s h. cc }

      go :
          (r : Result (Header × Cursor))
          → Header.decode rmp message ≡ r
          → Filed (settle rmp (λ sync. some sync) (process_response rmp message p))
      go (err e) x = rw (x, process_response) (kept e)
      go (ok (h, c)) x = more (read_response rmp h c) refl
        where
          more :
              (r : Result Response)
              → read_response rmp h c ≡ r
              → Filed (settle rmp (λ sync. some sync) (process_response rmp message p))
          more (err e) y = rw (x, process_response) (rw (y, process_response) (kept e))
          more (ok b) y =
              rw (x, process_response) (rw (y, process_response) (stored-Filed h.sync b))

  process_message-Filed : Filed (process_message rmp message p)
  unfolding process_message
  process_message-Filed = go p.phase refl
    where
      go : (x : Phase) → p.phase ≡ x → Filed (process_message rmp message p)
      go init e =
          simp (e, process_message)
            (settle-Filed (process_greeting rmp message p) incoming-process_greeting)
      go auth_wait e =
          simp (e, process_message)
            (settle-Filed (process_auth rmp message p) incoming-process_auth)
      go ready e = simp (e, process_message) process_response-Filed

-- The handler loses no response that it holds, and when it tells the caller a sync, it holds a
-- response under it.
pub process_incoming-Filed :
    (rmp : Rmp) (chunk : Cursor) (p : Protocol) → Filed rmp chunk p (process_incoming rmp chunk p)
unfolding process_incoming
process_incoming-Filed rmp chunk p = go p.msg_size_hint refl (rmp.read_u32 chunk) refl
  where
    go :
        (o : Option ℕ)
        → p.msg_size_hint ≡ o
        → (r : Result (ℕ × Cursor)) → rmp.read_u32 chunk ≡ r
        → Filed rmp chunk p (process_incoming rmp chunk p)
    go (some n) e r x =
        let q = process_message-Filed rmp chunk (record p { msg_size_hint = none }) in
        simp (e, process_incoming) (record { keeps = q.keeps; filed = q.filed })
    go none e (err y) x =
        simp (e, x, process_incoming) (record { keeps = λ j h. h; filed = λ s h. cc })
    go none e (ok (hint, c)) x = elim (Bool-cases (ltb 0 hint)) [
      | inl t ↦ simp (e, x, t, process_incoming) (record { keeps = λ j h. h; filed = λ s h. cc })
      | inr t ↦ simp (e, x, t, process_incoming) (record { keeps = λ j h. h; filed = λ s h. cc })
    ]

-- A request that fails to serialise leaves the bytes that go out as they are.
pub outgoing-send_request :
    {R : Type 0} (rmp : Rmp) (request : Request R) (p : Protocol) (e : Error)
    → (send_request rmp request p).0 ≡ err e
    → (send_request rmp request p).1.outgoing ≡ p.outgoing
unfolding send_request after_write
outgoing-send_request rmp request p e = go (write_to_buffer rmp (encode rmp request p.sync) _)
  where
    go :
        (r : Result (Unit {0}) × Cursor)
        → (after_write rmp p r).0 ≡ err e
        → (after_write rmp p r).1.outgoing ≡ p.outgoing
    go (err e, c) h = refl
    go (ok _, c) h = cc

pub state-take_response :
    {R : Type 0} (request : Request R) (s : ℕ) (p : Protocol)
    → (take_response request s p).1 ≡ record p { incoming = Maps.remove s p.incoming }
unfolding take_response
state-take_response request s p = refl

-- A response that is held is handed out.
pub take_response-held :
    {R : Type 0} (request : Request R) (s : ℕ) (p : Protocol)
    → Maps.get s p.incoming ≢ none
    → (take_response request s p).0 ≢ none
unfolding take_response answer
take_response-held request s p h = ground arith

pub state-take_outgoing_data :
    (p : Protocol)
    → ((take_outgoing_data p).0 ≡ p.outgoing)
      × ((take_outgoing_data p).1 ≡ record p { outgoing = [] })
unfolding take_outgoing_data
state-take_outgoing_data p = (refl, refl)

pub take_response-body :
    {R : Type 0} (request : Request R) (s : ℕ) (p : Protocol) (bs : Bytes)
    → Maps.get s p.incoming ≡ some (body bs)
    → (take_response request s p).0 ≡ some (request.decode_response_body (at_start bs))
unfolding take_response answer
take_response-body request s p bs h = rw h refl

pub stored-process_pending_data :
    (p : Protocol) (s : ℕ) (r : Response)
    → Maps.get s
        (process_pending_data (record p { incoming = Maps.insert s r p.incoming })).incoming
      ≡ some r
stored-process_pending_data p s r =
    rw
      (
        incoming-process_pending_data (record p { incoming = Maps.insert s r p.incoming }),
        Maps.get-insert s s r p.incoming,
      )
      (rw (==_self s) refl)
