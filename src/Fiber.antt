-- ===== src/Fiber.antt =====
-- tarantool/src/fiber/async: channels and locks between the futures of one thread, and how a fiber
-- runs a future. A waker is given by the number of the task that it wakes, and waking is given by the
-- list of the tasks woken.
pub mod Oneshot
pub mod Watch
pub mod Mutex
pub mod Runtime
mod Tests
