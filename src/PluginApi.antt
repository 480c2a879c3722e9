-- ===== src/PluginApi.antt =====
-- pkg/pluginapi: what a plugin is asked for, and how its frames are cut down to that.
pub mod Subscription
pub mod Trim
pub mod Closed
pub mod Accepted
