-- ===== src/Completion.antt =====
-- include/vita/runtime/completion: tickets for the completion of operations.
pub mod Ticket
pub mod Tests
