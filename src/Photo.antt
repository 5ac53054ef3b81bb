-- ===== src/Photo.antt =====
-- Photos: their bytes on the way to the volume, and the container that encrypts them there.
pub mod Jpeg
pub mod Crypto
