-- ===== src/Qr.antt =====
-- freenetic-qrcode.js: a QR code encoder.
pub mod Field
pub mod Rs
pub mod Blocks
pub mod Buffer
pub mod Codewords
pub mod Bch
pub mod Interleave
pub mod Matrix
pub mod Encode
mod Tests
