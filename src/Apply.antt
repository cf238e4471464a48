-- ===== src/Apply.antt =====
-- internal/apply/apply.go: generations, transactions, activation, confirmation and rollback.
pub mod Model
pub mod Manifest
pub mod Generation
pub mod Store
pub mod Rollback
pub mod Assets
pub mod Run
pub mod Quiet
pub mod Armed
pub mod Order
pub mod Stages
pub mod Restored
pub mod Dry
pub mod Confirmed
pub mod Reconciled
