-- ===== src/Device.antt =====
-- suplalite/device: the client that a device runs, and its channels.
pub mod Channels
pub mod Values
pub mod Cold
pub mod Client
pub mod Rounds
pub mod Messages
pub mod Lifetime
pub mod Runs
pub mod Start
pub mod Steps
