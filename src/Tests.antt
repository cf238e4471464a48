-- ===== src/Tests.antt =====
-- Inputs on which the theorems are applied.
mod Machine
mod Runs
mod Settings
mod Addresses
mod Configuration
mod Objects
mod Daemon
mod Commands
mod Policies
mod Finishing
mod Refreshes
mod Arguments
