-- ===== src/Protocol/Session.antt =====
-- The handler of tarantool/src/network/protocol/mod.rs over a connection: the calls as steps, and
-- what holds between them.
use tarantool_module.Base.{
  ℕ, ◌≡◌, refl, true, [], ◌++◌, Option, none, some, ltb, ◌==◌, Bool-cases, inl, inr,
}
use tarantool_module.Io.{Bytes, Cursor, Result, ok, err, at_start, BoxError}
use tarantool_module.Protocol.Rmp.{Rmp}
use tarantool_module.Protocol.Header.{Header, error_type}
use tarantool_module.Protocol.Header
use tarantool_module.Protocol.Errors
use tarantool_module.Protocol.Codec.{decode_greeting}
use tarantool_module.Protocol.Api.{Request, encode, auth}
use tarantool_module.Protocol.Buffer.{write_to_buffer}
use tarantool_module.Protocol.Buffer.Laws.{frame}
use tarantool_module.Protocol.Outgoing.{Fits, payload, send_request-queued}
use tarantool_module.Protocol.{
  Protocol, Phase, init, auth_wait, ready, chap_sha1, is_ready, process_pending_data, send_request,
  start_auth, settle, process_greeting, process_auth, process_response, process_message,
  process_incoming, take_outgoing_data, take_response, drop_response, read_response, Response,
  with_config, Config,
}

-- Between calls: nothing waits once the connection is ready, and nothing is out before the greeting.
pub record IsSettled (p : Protocol) : Type 0 where
  pub flushed : p.phase ≡ ready → p.pending_outgoing ≡ []
  pub silent : p.phase ≡ init → p.outgoing ≡ []

with_config-IsSettled : (config : Config) → IsSettled (with_config config)
unfolding with_config
with_config-IsSettled config = record { flushed = λ e. refl; silent = λ e. refl }

process_pending_data-IsSettled :
    (p : Protocol) → (p.phase ≡ init → p.outgoing ≡ []) → IsSettled (process_pending_data p)
unfolding process_pending_data
process_pending_data-IsSettled p s = go p.phase refl
  where
    go : (x : Phase) → p.phase ≡ x → IsSettled (process_pending_data p)
    go init e =
        rw (e, process_pending_data, is_ready) (record { flushed = λ h. cc; silent = λ h. s e })
    go auth_wait e =
        rw (e, process_pending_data, is_ready) (record { flushed = λ h. cc; silent = λ h. cc })
    go ready e =
        rw (e, process_pending_data, is_ready) (record { flushed = λ h. refl; silent = λ h. cc })

-- A call of the handler.
pub data Call (R : Type 0) : Type 0 where
  send : Request R → Call R
  receive : Cursor → Call R
  take_outgoing : Call R
  take : Request R → ℕ → Call R
  discard : ℕ → Call R

pub step : {R : Type 0} → Rmp → Call R → Protocol → Protocol
step rmp (send request) p = (send_request rmp request p).1
step rmp (receive chunk) p = (process_incoming rmp chunk p).1
step rmp take_outgoing p = (take_outgoing_data p).1
step rmp (take request sync) p = (take_response request sync p).1
step rmp (discard sync) p = drop_response sync p

-- A request that is sent serialises.
abbrev pub Allowed : {R : Type 0} → Rmp → Call R → Protocol → Type 0
Allowed rmp (send request) p = Fits rmp request p.sync
Allowed rmp _ p = Unit {0}

send-IsSettled :
    {R : Type 0} (rmp : Rmp) (request : Request R) (p : Protocol)
    → Fits rmp request p.sync
    → IsSettled p
    → IsSettled (send_request rmp request p).1
send-IsSettled rmp request p f s =
    let q =
      process_pending_data-IsSettled
        (record p {
          pending_outgoing = p.pending_outgoing ++ frame rmp (payload rmp request p.sync);
        })
        s.silent in
    rw (send_request-queued rmp request p f) (record { flushed = q.flushed; silent = q.silent })

-- An outcome before the waiting data is moved out: after an error the state stays as it is.
abbrev Sound {ℓ} : {A : Type ℓ} → Result A × Protocol → Type 0
Sound (ok a, p) = p.phase ≡ init → p.outgoing ≡ []
Sound (err e, p) = IsSettled p

start_auth-Sound :
    (rmp : Rmp) (p : Protocol) (r : Result (Unit {0}) × Cursor) → Sound (start_auth rmp p r)
unfolding start_auth
start_auth-Sound rmp p (ok _, c) = λ h. cc
start_auth-Sound rmp p (err e, c) = record { flushed = λ h. cc; silent = λ h. cc }

settle-IsSettled {ℓ} :
    {A : Type ℓ} (rmp : Rmp) (f : A → Option ℕ) (r : Result A × Protocol)
    → Sound r
    → IsSettled (settle rmp f r).1
settle-IsSettled rmp f (ok a, p) s = process_pending_data-IsSettled p s
settle-IsSettled rmp f (err e, p) s = s

module _ (rmp : Rmp) (message : Cursor) (p : Protocol) (s : IsSettled p) where
  process_greeting-Sound : Sound (process_greeting rmp message p)
  unfolding process_greeting
  process_greeting-Sound = go (decode_greeting rmp message) refl p.creds refl
    where
      go :
          (r : Result Bytes)
          → decode_greeting rmp message ≡ r
          → (o : Option (Bytes × Bytes)) → p.creds ≡ o
          → Sound (process_greeting rmp message p)
      go (err e) x o y = rw (x, process_greeting) s
      go (ok salt) x none y = rw (x, y, process_greeting) (λ h. cc)
      go (ok salt) x (some (user, pass)) y =
          simp (x, y, process_greeting)
            (start_auth-Sound rmp (record p { creds = some (user, pass) })
              (write_to_buffer rmp (encode rmp (auth rmp user pass salt chap_sha1) p.sync)
                (at_start p.outgoing)))

  process_auth-Sound : Sound (process_auth rmp message p)
  unfolding process_auth
  process_auth-Sound = go (Header.decode rmp message) refl
    where
      failed :
          (h : Header) (c : Cursor) (r : Result (BoxError × Cursor))
          → Errors.decode_error rmp h c ≡ r
          → (h.iproto_type == error_type) ≡ true
          → Header.decode rmp message ≡ ok (h, c)
          → Sound (process_auth rmp message p)
      failed h c (ok (e, d)) x t y = rw (y, process_auth) (rw t (rw (x, process_auth) s))
      failed h c (err e) x t y = rw (y, process_auth) (rw t (rw (x, process_auth) s))

      go :
          (r : Result (Header × Cursor))
          → Header.decode rmp message ≡ r
          → Sound (process_auth rmp message p)
      go (err e) x = rw (x, process_auth) s
      go (ok (h, c)) x = elim (Bool-cases (h.iproto_type == error_type)) [
        | inl t ↦ failed h c (Errors.decode_error rmp h c) refl t x
        | inr t ↦ rw (x, process_auth) (rw t (λ h. cc))
      ]

  process_response-Sound : Sound (process_response rmp message p)
  unfolding process_response
  process_response-Sound = go (Header.decode rmp message) refl
    where
      kept :
          (h : Header) (c : Cursor) (r : Result Response)
          → read_response rmp h c ≡ r
          → Header.decode rmp message ≡ ok (h, c)
          → Sound (process_response rmp message p)
      kept h c (ok b) x y = rw (y, process_response) (rw (x, process_response) s.silent)
      kept h c (err e) x y = rw (y, process_response) (rw (x, process_response) s)

      go :
          (r : Result (Header × Cursor))
          → Header.decode rmp message ≡ r
          → Sound (process_response rmp message p)
      go (err e) x = rw (x, process_response) s
      go (ok (h, c)) x = kept h c (read_response rmp h c) refl x

  process_message-IsSettled : IsSettled (process_message rmp message p).1
  unfolding process_message
  process_message-IsSettled = go p.phase refl
    where
      go : (x : Phase) → p.phase ≡ x → IsSettled (process_message rmp message p).1
      go init e =
          simp (e, process_message)
            (settle-IsSettled rmp _ (process_greeting rmp message p) process_greeting-Sound)
      go auth_wait e =
          simp (e, process_message)
            (settle-IsSettled rmp _ (process_auth rmp message p) process_auth-Sound)
      go ready e =
          simp (e, process_message)
            (settle-IsSettled rmp _ (process_response rmp message p) process_response-Sound)

process_incoming-IsSettled :
    (rmp : Rmp) (chunk : Cursor) (p : Protocol)
    → IsSettled p
    → IsSettled (process_incoming rmp chunk p).1
unfolding process_incoming
process_incoming-IsSettled rmp chunk p s = go p.msg_size_hint refl (rmp.read_u32 chunk) refl
  where
    go :
        (o : Option ℕ)
        → p.msg_size_hint ≡ o
        → (r : Result (ℕ × Cursor)) → rmp.read_u32 chunk ≡ r
        → IsSettled (process_incoming rmp chunk p).1
    go (some n) e r x =
        simp (e, process_incoming)
          (process_message-IsSettled rmp chunk (record p { msg_size_hint = none })
            (record { flushed = s.flushed; silent = s.silent }))
    go none e (err y) x = simp (e, x, process_incoming) s
    go none e (ok (hint, c)) x = elim (Bool-cases (ltb 0 hint)) [
      | inl t ↦ simp (e, x, t, process_incoming) (record { flushed = s.flushed; silent = s.silent })
      | inr t ↦ simp (e, x, t, process_incoming) s
    ]

take_response_state :
    {R : Type 0} (request : Request R) (sync : ℕ) (p : Protocol)
    → (take_response request sync p).1 ≡ drop_response sync p
unfolding take_response drop_response
take_response_state request sync p = refl

-- Every call keeps the connection settled, on its error paths too: when it is ready no request
-- waits in the queue, and before the greeting nothing is out. A request that is sent must serialise.
pub step-IsSettled :
    {R : Type 0} (rmp : Rmp) (call : Call R) (p : Protocol)
    → Allowed rmp call p
    → IsSettled p
    → IsSettled (step rmp call p)
unfolding step take_outgoing_data drop_response
step-IsSettled rmp (send request) p f s = send-IsSettled rmp request p f s
step-IsSettled rmp (receive chunk) p f s = process_incoming-IsSettled rmp chunk p s
step-IsSettled rmp take_outgoing p f s = record { flushed = s.flushed; silent = λ h. refl }
step-IsSettled rmp (take request sync) p f s =
    rw (take_response_state request sync p) (record { flushed = s.flushed; silent = s.silent })
step-IsSettled rmp (discard sync) p f s = record { flushed = s.flushed; silent = s.silent }
