-- ===== src/Host/Resources.antt =====
-- crates/core/gpu-host/src/hostcall.rs: the descriptors of the I/O thread and what its handlers
-- share. A handler takes the payload of the packet and the state of the thread, and returns whether
-- the service failed, with both as it leaves them. What it prints on the console of the host is left
-- out.
use async_gpu.Prelude.{
  ℕ, ◌+◌, Bool, true, false, List, Option, none, some, u64, update, write_u64, write_from, take,
}
use async_gpu.Protocol.Errors.{encode_error, err_invalid_input, err_invalid_fd}
use async_gpu.Host.Os.{Os, IoError, IoResult, ok, err, ErrorKind, write_error_response}

-- An open file or socket.
pub data FdResource (Handle : Type 0) : Type 0 where
  file tcp_stream tcp_listener : Handle → FdResource Handle

-- The sideband buffer: its header, and its data region by the byte.
pub record Sideband : Type 0 where
  pub alloc : ℕ
  pub capacity : ℕ
  pub data_region : ℕ → ℕ

-- The locals of `io_thread_loop`, the sideband buffer and the state of the system. The hash map of
-- descriptors is a function.
pub record Io (W Handle S : Type 0) : Type 0 where
  pub fd_table : ℕ → Option (FdResource Handle)
  pub next_fd : ℕ
  pub stdin : S
  pub sideband : Sideband
  pub os : W

-- The result of a handler.
pub record Answer (W Handle S : Type 0) : Type 0 where
  pub has_error : Bool
  pub payload : ℕ → ℕ
  pub io : Io W Handle S

-- What a look-up with a match on the kind of the resource finds.
pub data Found (Handle : Type 0) : Type 0 where
  wanted : Handle → Found Handle
  other_kind missing : Found Handle

module _ {Handle : Type 0} where
  unfoldable pub find_file : Option (FdResource Handle) → Found Handle
  find_file (some (file h)) = wanted h
  find_file (some (tcp_stream h)) = other_kind
  find_file (some (tcp_listener h)) = other_kind
  find_file none = missing

  unfoldable pub find_stream : Option (FdResource Handle) → Found Handle
  find_stream (some (tcp_stream h)) = wanted h
  find_stream (some (file h)) = other_kind
  find_stream (some (tcp_listener h)) = other_kind
  find_stream none = missing

  unfoldable pub find_listener : Option (FdResource Handle) → Found Handle
  find_listener (some (tcp_listener h)) = wanted h
  find_listener (some (file h)) = other_kind
  find_listener (some (tcp_stream h)) = other_kind
  find_listener none = missing

  abbrev pub handle_of : FdResource Handle → Handle
  handle_of (file h) = h
  handle_of (tcp_stream h) = h
  handle_of (tcp_listener h) = h

-- The error of a string that is not UTF-8, or of unknown flags.
abbrev pub invalid_input_error : IoError
invalid_input_error = record { kind = ErrorKind.invalid_input; raw_os_error = none }

module _ {W Handle S : Type 0} where
  -- The error arms of the handlers: an error of the host's own, and one of the system.
  unfoldable pub refuse : ℕ → (ℕ → ℕ) → Io W Handle S → Answer W Handle S
  refuse category payload io = record {
    has_error = true;
    payload = write_u64 payload 0 (encode_error category 0);
    io = io;
  }

  unfoldable pub fail : IoError → (ℕ → ℕ) → Io W Handle S → W → Answer W Handle S
  fail e payload io w = record {
    has_error = true;
    payload = write_error_response payload e;
    io = record io { os = w };
  }

  -- A success with a value in slot 0.
  unfoldable pub succeed : ℕ → (ℕ → ℕ) → Io W Handle S → W → Answer W Handle S
  succeed v payload io w = record {
    has_error = false;
    payload = write_u64 payload 0 v;
    io = record io { os = w };
  }

  -- The match on a look-up that the handlers begin with.
  unfoldable pub with_found :
      Found Handle → (ℕ → ℕ) → Io W Handle S → (Handle → Answer W Handle S) → Answer W Handle S
  unfolding refuse
  with_found (wanted h) payload io use_it = use_it h
  with_found other_kind payload io use_it = refuse err_invalid_input payload io
  with_found missing payload io use_it = refuse err_invalid_fd payload io

  -- A new descriptor for what was opened: the end of open, connect, bind and accept.
  unfoldable pub register :
      (Handle → FdResource Handle)
      → (ℕ → ℕ)
      → Io W Handle S
      → IoResult Handle
      → W
      → Answer W Handle S
  unfolding fail
  register mk payload io (err e) w = fail e payload io w
  register mk payload io (ok h) w =
      let fd : ℕ = io.next_fd in
      record {
        has_error = false;
        payload = write_u64 payload 0 fd;
        io = record io {
          fd_table = update io.fd_table fd (some (mk h));
          next_fd = u64 (fd + 1);
          os = w;
        };
      }

  -- The end of a write: the buffers of the system are flushed, and the count goes to slot 0.
  unfoldable pub wrote :
      Os W Handle → Handle → (ℕ → ℕ) → Io W Handle S → IoResult ℕ → W → Answer W Handle S
  unfolding fail succeed
  wrote sys h payload io (err e) w = fail e payload io w
  wrote sys h payload io (ok n) w = succeed n payload io (sys.flush h w)

  -- The end of an inline read: the count in slot 0 and the bytes from slot 1 on.
  unfoldable pub got : (ℕ → ℕ) → Io W Handle S → IoResult ℕ → List ℕ → W → Answer W Handle S
  unfolding fail
  got payload io (err e) buf w = fail e payload io w
  got payload io (ok n) buf w = record {
    has_error = false;
    payload = write_from (write_u64 payload 0 n) 8 (take n buf);
    io = record io { os = w };
  }

  -- Closing: the resource goes out of the table and is dropped.
  unfoldable pub drop_resource :
      Os W Handle → ℕ → (ℕ → ℕ) → Io W Handle S → Option (FdResource Handle) → Answer W Handle S
  unfolding refuse succeed
  drop_resource sys fd payload io none = refuse err_invalid_fd payload io
  drop_resource sys fd payload io (some r) =
      succeed 0 payload (record io { fd_table = update io.fd_table fd none })
        (sys.close (handle_of r) io.os)
