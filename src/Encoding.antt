-- ===== src/Encoding.antt =====
-- suplalite/encoding.py: messages as packed structures.
pub mod Schema
pub mod Value
pub mod Fields
pub mod Encode
pub mod Decode
pub mod WellFormed
pub mod Fits
pub mod At
pub mod Scalars
pub mod RoundTrip
pub mod NonAscii
