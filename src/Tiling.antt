-- ===== src/Tiling.antt =====
-- The split of a frame into tiles: src/tiling/tiler.rs.
pub mod Info
pub mod Log
pub mod Strips
pub mod Returns
pub mod Small
pub mod Cover
pub mod Valid
pub mod Bounded
pub mod Examples
