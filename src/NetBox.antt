-- ===== src/NetBox.antt =====
-- tarantool/src/net_box: the older client, whose workers exchange bytes with a transport through two
-- queues, and the promises of asynchronous calls.
pub mod RecvQueue
pub mod SendQueue
pub mod Promise
mod Tests
