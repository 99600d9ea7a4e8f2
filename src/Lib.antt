-- ===== src/Lib.antt =====
-- The tarantool module: a client and server library for Tarantool in Rust. This development models
-- its MessagePack routines and the traits that encode values, its handler of the iproto protocol, the
-- client on top of it with the channels and the lock that fibers share, the channels between threads,
-- the queues of the older client, and its vector clock.
--
-- Parts, and the files that model them:
-- - Io (tarantool/src/error.rs, and what is used of `std::io`): bytes as numbers, cursors, the
--   errors that the modelled code returns. `read_exact`, `write_all` and `seek` are written out.
-- - Msgpack (tarantool/src/msgpack.rs): `skip_value` with `skip_value_inner`, one clause of
--   `skip_payload` per marker; Msgpack/Iter has `ValueIter`, Msgpack/Writer has `ArrayWriter`,
--   Msgpack/Preserve has `preserve_read`. Msgpack/Format describes the format on its own: values as
--   a tree, and their bytes.
-- - Protocol (tarantool/src/network/protocol/mod.rs): the record `Protocol` and a function per
--   method, from a state to a result and the new state; Protocol/Buffer has `write_to_buffer`.
-- - Protocol/Header, Protocol/Errors, Protocol/Codec (tarantool/src/network/protocol/codec.rs): the
--   packet header, the error responses, the request bodies and the response decoders.
--   Protocol/Codec/Body has the bodies of responses.
-- - Protocol/Api (tarantool/src/network/protocol/api.rs): the trait `Request` as a record, and its
--   implementations.
-- - Fiber (tarantool/src/fiber/async): Fiber/Oneshot (oneshot.rs), Fiber/Watch (watch.rs) and
--   Fiber/Mutex (mutex.rs). A waker is a number, the task that it wakes; a call that wakes answers
--   with the tasks. Fiber/Mutex/System has the tasks around a lock as a step relation, whose two
--   flags say whether a pending `lock` may be dropped, and polled again before the lock wakes its
--   task. Fiber/Runtime
--   (tarantool/src/fiber/async.rs, timeout.rs) has `block_on`, timeouts and `sleep`.
-- - Time (tarantool/src/time.rs): instants and durations in nanoseconds.
-- - Client (tarantool/src/network/client/mod.rs): `Client` is `ClientInner` with the channels of the
--   calls in flight. `begin_send`, `poll_send`, `sender_round`, `receiver_round` and the rest are
--   what a fiber does between two yields; Client/Steps lets them interleave. A panic, of the code
--   itself or of what it calls, is a result of its own (`panics`, `panicked`, `err panic`); a
--   receiver that panics takes no further step. Client/Reconnect
--   (tarantool/src/network/client/reconnect.rs) has the clones that share one such client.
-- - NetBox (tarantool/src/net_box): NetBox/RecvQueue (recv_queue.rs), NetBox/SendQueue
--   (send_queue.rs), NetBox/Promise (promise.rs), which `dispatch` of NetBox/RecvQueue hands a body.
-- - Cbus (tarantool/src/cbus): Cbus/Unbounded (unbounded.rs), Cbus/Oneshot (oneshot.rs) and
--   Cbus/Sync (sync/std.rs), each a function per atomic operation; the modules System beneath them
--   let threads and the receiver interleave these. A flag of Cbus/Oneshot/System says whether the
--   receiver's fiber may be woken without a signal.
-- - Encode (tarantool/src/msgpack/encode.rs, tarantool-proc/src/lib.rs): the traits `Encode` and
--   `Decode`. Encode/Std and Encode/Map have their implementations for types of the standard library,
--   Encode/Derive and Encode/Types the code that is derived for structs and enums. A type is a code
--   `Ty`, by which Encode/Types finds the implementation as the compiler does.
-- - Vclock (tarantool/src/vclock.rs): `Vclock` as an association list, and its comparison.
-- - Base has the shared names, lists over native numbers, and `HashMap` as an association list.
--   Sample: concrete parameters for the witnesses in the modules named Tests.
--
-- How the parts meet: a request is serialised by Protocol/Api and Protocol/Codec, framed by
-- Protocol/Buffer and queued by Protocol. Incoming bytes go through Protocol to Protocol/Header,
-- whose unknown keys Msgpack skips, and on to Protocol/Errors or into the map of responses. Client
-- gives each call a channel of Fiber/Oneshot under the sync that Protocol gave it, and its receiver
-- ends the wait of the call whose response Protocol has filed.
--
-- Parameters. The crates `rmp`, `rmp_serde`, `base64` and `sha1` are outside the repository. The
-- records Markers and Arrays (Msgpack/Rmp), Rmp (Protocol/Rmp) and Codec (Encode/Rmp) hold the
-- functions of theirs that the code calls, with the documented behaviour that the proofs need: a
-- reader reads what its writer writes and refuses a nil, and a marker is one byte. The values of the user
-- are given by what they serialise to.
-- The fibers of the C API are the record Runtime (Fiber/Runtime): a clock and two waits, over a world
-- that they change; nothing is assumed of how long a wait lasts.
--
-- Bounds. Machine integers wrap as in a release build: the counter of syncs modulo 2 ^ 64, the
-- frame length modulo 2 ^ 32, the doubled count of a map modulo its own width. The recursion of
-- `skip_value` runs on fuel, one more than the bytes of the buffer; as every round reads a marker,
-- no run uses it up. `preserve_read` has one more round than bytes too, each of which takes a byte
-- at least before the next. The iterator's `collect` stands for a caller's loop and takes the
-- rounds as an argument. The loop of `pull` has as much fuel as bytes were read, as each round but
-- the last passes a length. `block_on` runs on fuel, the number of its polls; how many it
-- takes is up to the clock, and the theorem on it says which are enough.
-- Positions are below 2 ^ 63, as in memory.
--
-- Not modelled: the C API and what only wraps it (fibers, their latches and channels, spaces,
-- indexes, tuples, transactions), the Lua bindings, the TCP stream of tarantool/src/network/client,
-- the rest of tarantool/src/net_box (what waits on conditions, schemas), the bounded channel of
-- tarantool/src/cbus/sync/tokio.rs, sets, hash maps and raw fields among the types that are encoded,
-- and the authentication methods ldap and md5, which the default build leaves out.
pub mod Base
pub mod Time
pub mod Vclock
pub mod Io
pub mod Msgpack
pub mod Protocol
pub mod Fiber
pub mod Client
pub mod NetBox
pub mod Cbus
pub mod Encode
mod Sample
