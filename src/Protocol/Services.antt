-- ===== src/Protocol/Services.antt =====
-- crates/core/gpu-protocol/src/lib.rs: service numbers, control bits and limits of the payloads.
use async_gpu.Prelude.{ℕ, ◌-◌, ◌^◌}

abbrev pub service_nop : ℕ
service_nop = 0

abbrev pub service_print : ℕ
service_print = 1

abbrev pub service_write : ℕ
service_write = 2

abbrev pub service_read : ℕ
service_read = 3

abbrev pub service_open : ℕ
service_open = 4

abbrev pub service_close : ℕ
service_close = 5

abbrev pub service_stdin : ℕ
service_stdin = 8

abbrev pub service_time : ℕ
service_time = 9

abbrev pub service_panic : ℕ
service_panic = 10

abbrev pub service_bulk_write : ℕ
service_bulk_write = 11

abbrev pub service_bulk_read : ℕ
service_bulk_read = 12

abbrev pub service_trace : ℕ
service_trace = 13

abbrev pub service_bulk_print : ℕ
service_bulk_print = 15

-- `SERVICE_TCP_CONNECT` to `SERVICE_TCP_BULK_READ`
abbrev pub service_tcp_connect : ℕ
service_tcp_connect = 16

abbrev pub service_tcp_write : ℕ
service_tcp_write = 17

abbrev pub service_tcp_read : ℕ
service_tcp_read = 18

abbrev pub service_tcp_close : ℕ
service_tcp_close = 19

abbrev pub service_tcp_bind : ℕ
service_tcp_bind = 20

abbrev pub service_tcp_accept : ℕ
service_tcp_accept = 21

abbrev pub service_tcp_bulk_write : ℕ
service_tcp_bulk_write = 22

abbrev pub service_tcp_bulk_read : ℕ
service_tcp_bulk_read = 23

abbrev pub control_ready : ℕ
control_ready = 1

abbrev pub control_error : ℕ
control_error = 2

abbrev pub control_filled : ℕ
control_filled = 4

abbrev pub print_max_msg_len : ℕ
print_max_msg_len = 56

abbrev pub file_max_write_len : ℕ
file_max_write_len = 48

abbrev pub file_max_read_len : ℕ
file_max_read_len = 56

abbrev pub file_error_sentinel : ℕ
file_error_sentinel = 2 ^ 64 - 1

abbrev pub stdin_max_read_len : ℕ
stdin_max_read_len = 56

abbrev pub gpu_max_spin : ℕ
gpu_max_spin = 10_000_000

abbrev pub file_max_path_len : ℕ
file_max_path_len = 56

abbrev pub tcp_max_addr_len : ℕ
tcp_max_addr_len = 56

abbrev pub tcp_max_write_len : ℕ
tcp_max_write_len = 48

abbrev pub tcp_max_read_len : ℕ
tcp_max_read_len = 56

abbrev pub file_open_read : ℕ
file_open_read = 0

abbrev pub file_open_write_create : ℕ
file_open_write_create = 1

abbrev pub file_open_append : ℕ
file_open_append = 2
