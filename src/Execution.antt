-- ===== src/Execution.antt =====
-- include/vita/runtime/execution: the admission of work.
pub mod Admission
pub mod Budget
pub mod Tests
