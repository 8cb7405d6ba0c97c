-- ===== src/Main.antt =====
-- cmd/chitchat/main.go: the checks of a configuration and the reload of a running engine.
pub mod Check
pub mod Reload
pub mod Command
pub mod Failures
pub mod Process
pub mod Run
pub mod Version
