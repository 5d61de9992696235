-- ===== src/Outbox.antt =====
-- The outbox of the integration hub.
pub mod Results
pub mod Models
pub mod Tables
pub mod Commands
pub mod Replies
pub mod Claim
pub mod Fail
pub mod Authority
pub mod Execute
pub mod Finish
pub mod Retry
pub mod Recover
pub mod Reconcile
pub mod Lifecycle
pub mod History
pub mod Duplicates
pub mod Selection
pub mod Retries
pub mod Samples
pub mod Tests
