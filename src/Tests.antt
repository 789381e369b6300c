-- ===== src/Tests.antt =====
-- Concrete inputs on the in-memory engine: the theorems applied, and runs of the operations.
pub mod Data
mod Queue
mod Access
mod Stores
mod Polls
mod Files
pub mod Forms
mod Admin
mod Streams
mod Submissions
mod Auth
mod Dispatch
mod Requests
mod Sessions
mod Runs
mod Turns
mod Containers
mod Listings
