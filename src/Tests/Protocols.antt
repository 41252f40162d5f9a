-- ===== src/Tests/Protocols.antt =====
-- The wire format at concrete values.
use async_gpu.Protocol.Errors.{GpuError, new}

abbrev not_found : GpuError
not_found = new 1 2
