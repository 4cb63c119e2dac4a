-- ===== src/Utils.antt =====
-- pkg/utils: helpers that the hub and the agent share.
pub mod Slice
pub mod Feed
pub mod Resources
pub mod Deployer
mod Examples
