-- ===== src/TaskDb.antt =====
-- src/taskdb.c: the task database.
pub mod Find
pub mod Deps
pub mod Records
pub mod Ready
pub mod Insert
pub mod Provide
pub mod Query
mod Tests
