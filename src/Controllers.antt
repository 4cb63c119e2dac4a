-- ===== src/Controllers.antt =====
-- pkg/controllers: the controllers of the hub and of the agent.
pub mod ClusterLifecycle
pub mod ClusterStatus
pub mod Work
pub mod Apps
mod Examples
