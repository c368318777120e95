-- ===== src/Transaction.antt =====
-- include/vita/runtime/transaction: the retention of requests, and what a controller observes of them.
pub mod Retention
pub mod Observer
pub mod Tests
