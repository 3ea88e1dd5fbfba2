-- ===== src/Examples.antt =====
-- Concrete inputs: small runs of the model, and the theorems applied to them.
mod Limits
mod Queues
mod Requests
mod Settings
mod Caching
mod Tasks
mod Failures
mod Hosts
mod Downloads
mod Markers
mod Ranges
mod Sharing
