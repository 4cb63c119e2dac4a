-- ===== src/Scheduler.antt =====
-- pkg/scheduler.
pub mod PostFilter
pub mod Api
pub mod Status
pub mod Merge
pub mod Plugins
pub mod Filter
pub mod Chain
pub mod Waiting
pub mod Framework
pub mod Permit
pub mod Score
pub mod FrameworkImpl
pub mod Cache
pub mod Algorithm
pub mod Schedule
pub mod Cycle
pub mod Registry
mod Examples
pub mod DefaultBinder
pub mod TaintToleration
pub mod Assembly
pub mod Handlers
pub mod Parallelize
