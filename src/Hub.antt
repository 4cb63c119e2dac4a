-- ===== src/Hub.antt =====
-- pkg/hub: the deployer, which turns Subscriptions into Bases, and Bases into Descriptions, and the
-- localizer, which overrides what is deployed.
pub mod Api
pub mod Feeds
pub mod Bases
pub mod Descriptions
pub mod Localizer
pub mod Generic
pub mod Helm
pub mod Protection
mod Examples
