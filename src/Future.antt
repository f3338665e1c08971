-- ===== src/Future.antt =====
-- The module `future` of `completion` (src/future).
pub mod Join
mod Tests
