-- ===== src/Queue.antt =====
-- internal/queue/job.go and internal/queue/queue.go: the jobs that travel through the queue, and the
-- queue that the server, the relay and the job service use behind the Go interface `Queue`.
pub mod Keyspace
pub mod Redis
pub mod Counts
pub mod Place
pub mod Coherent
pub mod Contract
pub mod Moves
pub mod Rounds
pub mod Consume
pub mod Order
pub mod Faults
pub mod Interface
