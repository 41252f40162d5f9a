-- ===== src/Sideband/Transfer.antt =====
-- A bulk write across the two sides: what the GPU puts in the sideband buffer and in the packet is
-- what the host writes to the file.
use async_gpu.Host.Os.{Os}
use async_gpu.Host.Resources.{Sideband}
use async_gpu.Hostcall.Buffer.{Buffer}
