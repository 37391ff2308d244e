-- ===== src/Proto.antt =====
-- suplalite/proto.py: the constants, the enumerations and the message classes of the protocol.
pub mod Constants
pub mod Calls
pub mod Enums
pub mod Devices
pub mod Clients
pub mod Channels
pub mod Actions
pub mod States
pub mod Configs
pub mod Values
pub mod Packets
pub mod Messages
pub mod RoundTrip
