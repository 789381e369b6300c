-- ===== src/Task.antt =====
-- Tasks and their execution (internal/task).
pub mod Executor
pub mod Label
