-- ===== src/Client.antt =====
-- src/client/sync.rs: the blocking client `FtpFs`, as actions on its state and the world.
--
-- An operation takes `&self` and holds the mutex of the control stream while it runs a command, so it
-- is one action. What other threads may do between the commands of one operation is not modelled.
pub mod Access
pub mod Quiet
pub mod Probe
pub mod Stat
pub mod Refusal
pub mod Commands
pub mod Streams
pub mod Connection
pub mod Life
mod Tests
