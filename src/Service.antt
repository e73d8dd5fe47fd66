-- ===== src/Service.antt =====
-- internal/service: submission and cancellation of jobs, and the progress of workflow runs.
pub mod Jobs
pub mod Workflows
pub mod Cancellation
pub mod Stopped
pub mod Keeps
pub mod Keys
pub mod Progress
pub mod Grown
pub mod Ordered
pub mod DependencyOrder
pub mod FirstSteps
pub mod Statuses
