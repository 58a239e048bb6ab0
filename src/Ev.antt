-- ===== src/Ev.antt =====
-- The thread pool and the event loop of xxx/ev.
pub mod Workers
pub mod Pool
pub mod Invariant
pub mod Reachable
pub mod Delivery
