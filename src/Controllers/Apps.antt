-- ===== src/Controllers/Apps.antt =====
-- pkg/controllers/apps and pkg/controllers/misc/secret: the handlers of events and the sync handlers
-- of each controller. Specifications are compared by DeepEqual, a parameter.
pub mod Subscriptions
pub mod Bases
pub mod Descriptions
pub mod Feeds
pub mod Overrides
pub mod Secrets
pub mod Guarded
pub mod Pruned
