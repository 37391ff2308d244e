-- ===== src/Server.antt =====
-- suplalite/server: the state that the handlers share, and the packs that they build of it.
pub mod Types
pub mod State
pub mod Clients
pub mod Reachable
pub mod Sessions
pub mod Icons
pub mod Devices
pub mod Setup
pub mod LastValue
pub mod Dimmers
pub mod Packs
pub mod World
pub mod Registration
pub mod ClientRegistration
pub mod Connections
pub mod Ownership
pub mod Releasing
pub mod Handling
pub mod DeviceHandling
pub mod Owned
pub mod Slots
pub mod Connecting
pub mod Disconnecting
pub mod Closing
pub mod Keeping
pub mod Lifecycle
pub mod Idle
pub mod Matching
pub mod Registered
pub mod Admission
pub mod Actions
pub mod Acting
pub mod Switches
pub mod Switching
pub mod Broadcast
pub mod Requests
pub mod Numbers
pub mod Waiting
pub mod Leaving
pub mod Service
pub mod Takeover
pub mod Race
