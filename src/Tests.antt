-- ===== src/Tests.antt =====
-- The theorems at concrete inputs, and runs of the code.
mod Samples
mod Config
mod Spy
mod Engine
mod Workers
mod Main
mod Run
mod Commands
mod Templates
mod Server
mod Broker
