-- ===== src/Wire.antt =====
-- The Protocol Buffers codec, backend/static/js/lib/proto.js.
pub mod Types
pub mod Varint
pub mod Codec
pub mod Fuel
pub mod Items
pub mod Objects
pub mod RoundTrip
mod Tests
