-- ===== src/Spy.antt =====
-- pkg/spy: the ring buffer of captured messages and the REST server over it.
pub mod Message
pub mod Filter
pub mod Headers
pub mod Ring
pub mod Wait
pub mod Params
pub mod Server
pub mod Listener
