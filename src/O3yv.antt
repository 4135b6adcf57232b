-- ===== src/O3yv.antt =====
-- minidecoder/src/lib.rs.
pub mod Format
pub mod Bytes
pub mod Reader
pub mod Frame
pub mod Pixels
pub mod Eye
pub mod Motion
pub mod Blocks
pub mod Parts
pub mod Residual
pub mod Transform
pub mod Coeffs
pub mod Modes
pub mod Fragment
pub mod Reuse
pub mod Tile
pub mod Stream
pub mod Write
pub mod Examples
