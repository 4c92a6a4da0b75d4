-- ===== src/Tokio.antt =====
-- src/client/tokio.rs and src/client/tokio/stream.rs: the asynchronous client `TokioFtpFs`, as tasks
-- that may be dropped at each await.
pub mod Runtime
pub mod Task
pub mod Access
pub mod Probe
pub mod Stat
pub mod Refusal
pub mod Commands
pub mod Transfer
pub mod Streams
pub mod Connection
pub mod Twins
pub mod Calm
pub mod Sync
mod Tests
