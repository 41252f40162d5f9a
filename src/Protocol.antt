-- ===== src/Protocol.antt =====
-- crates/core/gpu-protocol/src/lib.rs: the wire protocol that the GPU and the host share.
pub mod Services
pub mod Tagged
pub mod Layout
pub mod Regions
pub mod Errors
pub mod Metadata
pub mod KernelResult
