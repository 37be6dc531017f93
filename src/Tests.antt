-- ===== src/Tests.antt =====
-- Runs of the code on concrete inputs.
mod Bench
mod Texts
mod Lines
mod Handlers
mod Traps
mod Sessions
mod Rounds
mod Threads
mod Examples
mod Receiver
mod Kept
mod Monitor
mod Launch
