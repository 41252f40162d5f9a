-- ===== src/Hostcall.antt =====
-- The hostcall buffer and its packet stacks: crates/core/gpu-runtime/src/hostcall.rs on the GPU side
-- and the buffer set-up of crates/core/gpu-host/src/hostcall.rs.
pub mod Buffer
pub mod Stack
pub mod Chain
pub mod Aba
pub mod Progress
pub mod Trace
pub mod Request
pub mod Outcomes
pub mod Returns
pub mod Timeout
pub mod Init
pub mod Links
pub mod Fresh
