-- ===== src/Pairing.antt =====
-- Pairing of a new device: backend/static/js/lib/pairing.js, and the two sides of the exchange in
-- backend/static/js/app/data.js. Texts are lists of character codes.
pub mod Envelope
pub mod Approval
pub mod Binding
pub mod Device
