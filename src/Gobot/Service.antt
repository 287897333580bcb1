-- ===== src/Gobot/Service.antt =====
-- internal/gobot/service/service.go: what is done with each tag that was read. A method takes the
-- service before it and returns the service after it, with the method's result. Time is a number of
-- nanoseconds, given to each method that reads the clock.
pub mod State
pub mod Queue
pub mod Recent
pub mod Ingest
pub mod Worker
pub mod Refresh
pub mod Invariant
pub mod Counters
pub mod Submission
pub mod Retries
pub mod Scanning
pub mod Drafts
pub mod Decisions
pub mod Replay
pub mod Examples
