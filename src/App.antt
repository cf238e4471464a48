-- ===== src/App.antt =====
-- internal/app: the requests of the command line, and the commands that answer them.
pub mod Request
pub mod Report
pub mod Reported
pub mod Path
pub mod Contained
pub mod Convert
pub mod Change
pub mod Edit
pub mod Calls
pub mod Saved
pub mod Held
pub mod Finished
pub mod Hardened
pub mod Daemon
pub mod Accepted
pub mod Sourced
pub mod Validated
pub mod Run
pub mod Offline
pub mod Refined
pub mod Coverage
pub mod Covered
