-- ===== src/Tasks.antt =====
-- src/boiler_reviews/tasks and ops/recovery.py: the durable task queue with leases and fencing
-- tokens, its worker, and the repair of interrupted leases.
pub mod Model
pub mod Queue
pub mod Recovery
pub mod Schedule
pub mod Session
pub mod Worker
mod Merge
pub mod Fencing
pub mod Steps
pub mod History
pub mod Leases
mod Repair
mod Attempts
mod Late
mod Tests
mod WorkerTests
