-- ===== src/Retry.antt =====
-- proxy/app/shared/retry.py: `sync_retry`, which takes its attempts one after the other, and its
-- use of the named circuit breakers. Async has `async_retry`.
-- A delay is a number of ticks, and the jitter factor that `random.uniform(0.75, 1.25)` gives is
-- a number of hundredths, one for each attempt.
pub mod Delay
pub mod Loop
pub mod Laws
pub mod Breakers
pub mod Async
mod Tests
