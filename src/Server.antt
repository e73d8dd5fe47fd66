-- ===== src/Server.antt =====
-- internal/server/server.go: the worker stream, the results of jobs and the reaper.
pub mod Backoff
pub mod State
pub mod Results
pub mod Work
pub mod Reaper
pub mod Spared
pub mod Reclaim
pub mod Ownership
pub mod Outcomes
pub mod Settled
pub mod Success
pub mod Assignment
pub mod Held
pub mod InOrder
pub mod Paired
pub mod Watched
