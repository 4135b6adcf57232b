-- ===== src/Gop.antt =====
-- The order of frames within a group of pictures: src/api/internal.rs and src/encoder.rs.
pub mod Config
pub mod Inter
pub mod Levels
pub mod Shown
pub mod Slots
pub mod Pyramid
pub mod Groups
pub mod Reached
pub mod Places
pub mod Flat
pub mod References
pub mod Examples
