-- ===== src/Tests.antt =====
-- Tests: a Redis server in memory, and the theorems at concrete inputs.
mod Memory
mod QueueExamples
mod WorkflowExamples
mod DbExamples
mod ServiceExamples
mod ServerExamples
mod SchedulerExamples
mod ApiExamples
mod RunExamples
mod WorkerExamples
mod CliExamples
mod ProcessExamples
mod SystemExamples
