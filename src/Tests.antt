-- ===== src/Tests.antt =====
-- The tests, and the theorems at concrete inputs.
mod Data
mod Frames
mod Shares
mod Blocks
mod Sweeps
mod Rounds
mod Boosts
mod Calls
mod Hubs
mod Logs
mod Rebuilds
mod Following
mod Startup
mod Requests
