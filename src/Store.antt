-- ===== src/Store.antt =====
-- The database layer (internal/store): the rows, the requests that the repositories send to gorm,
-- and the session in which they run.
pub mod Rows
pub mod Status
pub mod Orm
pub mod Session
pub mod Engine
pub mod Retry
pub mod Seeding
