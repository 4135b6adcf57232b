-- ===== src/Quantize.antt =====
-- The quantisation of transform coefficients: src/quantize/mod.rs.
pub mod Division
pub mod Magic
pub mod Power
pub mod Exact
pub mod Context
pub mod Coefficients
pub mod Signs
pub mod Levels
pub mod Returned
pub mod Examples
