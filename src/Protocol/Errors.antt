-- ===== src/Protocol/Errors.antt =====
-- crates/core/gpu-protocol/src/lib.rs: error categories, their encoding in payload slot 0, GpuError.
use async_gpu.Prelude.{ℕ, ◌+◌, ◌*◌, ◌/◌, ◌^◌, ◌<◌, ◌≡◌, arith, u16}

abbrev pub err_other : ℕ
err_other = 0

abbrev pub err_not_found : ℕ
err_not_found = 1

abbrev pub err_permission_denied : ℕ
err_permission_denied = 2

abbrev pub err_already_exists : ℕ
err_already_exists = 3

abbrev pub err_timed_out : ℕ
err_timed_out = 6

abbrev pub err_would_block : ℕ
err_would_block = 7

abbrev pub err_broken_pipe : ℕ
err_broken_pipe = 8

abbrev pub err_out_of_memory : ℕ
err_out_of_memory = 12

abbrev pub err_connection_refused : ℕ
err_connection_refused = 14

abbrev pub err_unsupported : ℕ
err_unsupported = 17

abbrev pub err_connection_reset : ℕ
err_connection_reset = 18

abbrev pub err_addr_in_use : ℕ
err_addr_in_use = 19

abbrev pub err_addr_not_available : ℕ
err_addr_not_available = 20

abbrev pub err_not_connected : ℕ
err_not_connected = 21

abbrev pub err_resource_busy : ℕ
err_resource_busy = 9

abbrev pub err_invalid_input : ℕ
err_invalid_input = 4

abbrev pub err_invalid_fd : ℕ
err_invalid_fd = 13

abbrev pub err_host_timeout : ℕ
err_host_timeout = 16

-- `(raw_errno << 16) | category`, two u16 in disjoint bits.
unfoldable pub encode_error : ℕ → ℕ → ℕ
encode_error category raw_errno = raw_errno * 2 ^ 16 + category

unfoldable pub error_category : ℕ → ℕ
error_category slot0 = u16 slot0

unfoldable pub error_raw_errno : ℕ → ℕ
error_raw_errno slot0 = u16 (slot0 / 2 ^ 16)

pub record GpuError : Type 0 where
  pub category : ℕ
  pub raw_errno : ℕ

abbrev pub new : ℕ → ℕ → GpuError
new category raw_errno = record { category = category; raw_errno = raw_errno }

unfoldable pub from_encoded : ℕ → GpuError
unfolding error_category error_raw_errno
from_encoded slot0 = record { category = error_category slot0; raw_errno = error_raw_errno slot0 }

unfoldable pub pool_exhausted : GpuError
pool_exhausted = new err_resource_busy 0

unfoldable pub timeout : GpuError
timeout = new err_host_timeout 0

-- An error that the host encodes in slot 0 is the one that the GPU decodes from it.
pub from_encoded-encode_error :
    (e : GpuError)
    → e.category < 2 ^ 16
    → e.raw_errno < 2 ^ 16
    → from_encoded (encode_error e.category e.raw_errno) ≡ e
unfolding from_encoded encode_error
from_encoded-encode_error e h k = ground arith
