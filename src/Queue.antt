-- ===== src/Queue.antt =====
-- internal/queue/processor.go: the worker that takes events from the queue and delivers them.
pub mod Words
pub mod World
pub mod Failure
pub mod Process
pub mod Steps
pub mod Carried
pub mod Keeps
pub mod Retries
pub mod Digest
pub mod Entries
pub mod Ready
