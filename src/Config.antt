-- ===== src/Config.antt =====
-- pkg/config: the configuration, its defaults, its checks and its warnings.
pub mod Types
pub mod Topic
pub mod Defaults
pub mod Texts
pub mod Validate
pub mod Dedupe
pub mod Routing
pub mod Warnings
