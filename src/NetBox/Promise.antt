-- ===== src/NetBox/Promise.antt =====
-- tarantool/src/net_box/promise.rs: the response to an asynchronous call. The condition that waiting
-- fibers share is given by how often it was signalled.
pub mod Kept
use tarantool_module.Base.{
  ℕ, zero, suc, ◌+◌, Bool, true, false, Option, none, some, ◌==◌, if◌then◌else◌, get_or,
}
use tarantool_module.Io.{
  Bytes, Cursor, Error, Result, ok, err, ◌>>=◌, at_start, BoxError, plain, remote, not_connected,
}
use tarantool_module.Msgpack.{skip_value}
use tarantool_module.Msgpack.Iter.{slice}
use tarantool_module.Protocol.Rmp.{Rmp}
use tarantool_module.Protocol.Header.{Header}
use tarantool_module.Protocol.Errors.{
  no_error, with_info, info, decode_string, decode_extended_error,
}

-- `InnerPromise`, with whether the connection, by its weak reference, is there and connected
pub record Promise (T : Type 0) : Type 0 where
  pub connected : Bool
  pub signals : ℕ
  pub result : Option (Result T)

pub data State : Type 0 where
  kept received_error pending disconnected : State

pub data TryGet (T : Type 0) : Type 0 where
  value : T → TryGet T
  error : Error → TryGet T
  unresolved : TryGet T

-- What the loop of `consume` has found so far
pub record Found : Type 0 where
  pub contents : Option Bytes
  pub error : Option BoxError

abbrev pub get_or_default : Option BoxError → BoxError
get_or_default none = plain no_error
get_or_default (some e) = e

module _ {T : Type 0} where
  pub new : Bool → Promise T
  new connected = record { result = none; signals = 0; connected = connected }

  pub signal : Promise T → Promise T
  signal p = record p { signals = p.signals + 1 }

  pub handle_error : Error → Promise T → Promise T
  unfolding signal
  handle_error e p = signal (record p { result = some (err e) })

  pub handle_disconnect : Promise T → Promise T
  unfolding signal
  handle_disconnect p = signal p

  -- `T::decode` of the bytes
  pub consume_data : (Bytes → Result T) → Bytes → Promise T → Promise T
  unfolding signal
  consume_data decode bs p = signal (record p { result = some (decode bs) })

  -- `state`, which leaves the promise as it was
  pub state : Promise T → State
  state p = elim p.result [
    | some (ok _) ↦ kept
    | some (err _) ↦ received_error
    | none ↦ if p.connected then pending else disconnected
  ]

  -- `check_connection`
  pub check_connection : Promise T → Result (Unit {0})
  check_connection p = if p.connected then ok tt else err not_connected

  pub try_get : Promise T → TryGet T
  unfolding check_connection
  try_get p = elim p.result [
    | some (ok v) ↦ value v
    | some (err e) ↦ error e
    | none ↦ elim (check_connection p) [ err e ↦ error e | ok _ ↦ unresolved ]
  ]

module _ (rmp : Rmp) (header : Header) where
  -- One entry of the body, its value cut out: what `consume_other` gets is ignored.
  pub consume_field : ℕ → Bytes → Found → Result Found
  consume_field key bs found =
      if key == 0x30
      then ok (record found { contents = some bs })
      else (if key == 0x31
          then (do
            let e : BoxError = get_or_default found.error
            (message, _) ← decode_string rmp (at_start bs)
            ok (record found {
              error = some (
                  with_info e
                    (record (info e) { message = some message; code = header.error_code }));
            }))
          else (if key == 0x52
              then (do
                (e, _) ← decode_extended_error rmp (at_start bs)
                ok (elim e [ none ↦ found | some x ↦ record found { error = some x } ]))
              else ok found))

  pub consume_fields : ℕ → Found → Cursor → Result Found
  unfolding consume_field
  consume_fields zero found c = ok found
  consume_fields (suc n) found c = do
    (key, c1) ← rmp.read_pfix c
    c2 ← skip_value rmp.markers c1
    found' ← consume_field key (slice c1.pos c2.pos c.bytes) found
    consume_fields n found' c2

  pub consume_body : Bytes → Result Found
  unfolding consume_fields
  consume_body body = do
    (n, c) ← rmp.read_map_len (at_start body)
    consume_fields n (record { contents = none; error = none }) c

  -- `consume`: what was found is told at the end, an error last.
  pub consume : {T : Type 0} → (Bytes → Result T) → Bytes → Promise T → Promise T
  unfolding consume_body handle_error consume_data
  consume {T = T} decode body p = elim (consume_body body) [
    | err e ↦ handle_error e p
    | ok found ↦
        let p1 : Promise T = elim found.contents [
          | none ↦ p
          | some bs ↦ consume_data decode bs p
        ] in
        elim found.error [ none ↦ p1 | some e ↦ handle_error (remote e) p1 ]
  ]
