-- ===== src/Examples.antt =====
-- Concrete runs: the theorems applied to data on which their conditions hold.
pub mod Network
pub mod Codec
pub mod Data
pub mod Published
pub mod Queued
pub mod Run
pub mod Handed
pub mod Taken
pub mod Resolved
pub mod Delivered
pub mod Prepared
pub mod Configured
pub mod Stored
pub mod Cached
pub mod Validated
pub mod Started
pub mod Drawn
