-- ===== src/Host.antt =====
-- The host's side of hostcalls, crates/core/gpu-host/src/hostcall.rs: the listener that drains the
-- ready stacks, the I/O thread, and the handlers of the services, over a parameter for the operating
-- system.
pub mod Os
pub mod Stdin
pub mod Resources
pub mod Files
pub mod Sockets
pub mod Bulk
pub mod Console
pub mod IoThread
pub mod Listener
pub mod Frames
pub mod Serve
pub mod Drain
pub mod Handlers
pub mod Descriptors
pub mod Loop
pub mod Prints
pub mod Traces
