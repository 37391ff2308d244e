-- ===== src/Encoding/RoundTrip.antt =====
-- `decode` reads back what `encode` wrote, for every well-formed class and every message that fits.
mod Sizes
mod Items
mod Steps
mod Messages
pub use Messages.*
