-- ===== src/Ec.antt =====
-- The range coder of src/ec.rs.
pub mod Format
pub mod Base
pub mod Counter
pub mod Recorder
pub mod Encoder
pub mod Symbol
pub mod Tell
pub mod Rollback
pub mod Cdf
pub mod Decode
pub mod ContextLog
pub mod Examples
