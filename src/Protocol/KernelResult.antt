-- ===== src/Protocol/KernelResult.antt =====
-- crates/core/gpu-protocol/src/lib.rs: GpuKernelResult, the status record of a kernel. Its 48 message
-- bytes are a map from the index.
use async_gpu.Prelude.{
  ℕ, ◌≡◌, refl, inl, inr, Bool, true, false, List, ltb, ◌==◌, if◌then◌else◌, length, take,
  length-take, take-eq_self, tests, arith, ltb→le, Bool-cases, write_from, read_from,
  read_from-write_from, read_from-write_from_len,
}
use async_gpu.Protocol.Errors.{GpuError}

abbrev pub tag_ok : ℕ
tag_ok = 0

abbrev pub tag_err : ℕ
tag_err = 1

abbrev pub tag_uninit : ℕ
tag_uninit = 0xDEAD_BEEF

pub record GpuKernelResult : Type 0 where
  pub tag : ℕ
  pub category : ℕ
  pub raw_errno : ℕ
  pub thread_idx : ℕ
  pub block_idx : ℕ
  pub msg_len : ℕ
  pub msg_bytes : ℕ → ℕ

unfoldable pub uninit : GpuKernelResult
uninit = record {
  tag = tag_uninit;
  category = 0;
  raw_errno = 0;
  thread_idx = 0;
  block_idx = 0;
  msg_len = 0;
  msg_bytes = λ _. 0;
}

unfoldable pub set_ok : GpuKernelResult → GpuKernelResult
set_ok r = record r { tag = tag_ok }

-- The copy loop writes the first `len` bytes of the message, in order, from index 0 on.
unfoldable pub set_err : GpuKernelResult → GpuError → ℕ → ℕ → List ℕ → GpuKernelResult
set_err r err thread_idx block_idx msg =
    let len : ℕ = if ltb 48 (length msg) then 48 else length msg in
    record {
      tag = tag_err;
      category = err.category;
      raw_errno = err.raw_errno;
      thread_idx = thread_idx;
      block_idx = block_idx;
      msg_len = len;
      msg_bytes = write_from r.msg_bytes 0 (take len msg);
    }

unfoldable pub is_ok : GpuKernelResult → Bool
is_ok r = r.tag == tag_ok

unfoldable pub is_err : GpuKernelResult → Bool
is_err r = r.tag == tag_err

unfoldable pub message : GpuKernelResult → List ℕ
message r = read_from r.msg_bytes 0 (if ltb 48 r.msg_len then 48 else r.msg_len)

length-take_of_lt :
    (msg : List ℕ) → ltb 48 (length msg) ≡ true → ◌≡◌ {A = ℕ} 48 (length (take 48 msg))
length-take_of_lt msg h = omega (tests, length-take 48 msg)

-- Reading back what the copy loop wrote gives the first 48 bytes.
message_copy :
    (f : ℕ → ℕ) (msg : List ℕ)
    → let len : ℕ = if ltb 48 (length msg) then 48 else length msg in
      read_from (write_from f 0 (take len msg)) 0 (if ltb 48 len then 48 else len) ≡ take 48 msg
message_copy f msg = elim (Bool-cases (ltb 48 (length msg))) [
  | inl long ↦ rw long (read_from-write_from_len f 0 48 _ (length-take_of_lt msg long))
  | inr short ↦
      rw
        (
          short,
          short,
          take-eq_self (length msg) msg (omega arith),
          take-eq_self 48 msg (ltb→le 48 (length msg) short),
        )
        (read_from-write_from f 0 msg)
]

-- After `set_err` the message read back is the first 48 bytes of the one given (all of it, if it is
-- no longer), the result is an error and not a success, and the other fields are those given.
pub message-set_err :
    (r : GpuKernelResult) (err : GpuError) (thread_idx block_idx : ℕ) (msg : List ℕ)
    → let r' = set_err r err thread_idx block_idx msg in
      (message r' ≡ take 48 msg)
      × (is_err r' ≡ true)
      × (is_ok r' ≡ false)
      × (r'.category ≡ err.category)
      × (r'.raw_errno ≡ err.raw_errno)
      × (r'.thread_idx ≡ thread_idx)
      × (r'.block_idx ≡ block_idx)
unfolding set_err message is_err is_ok
message-set_err r err t b msg = (message_copy r.msg_bytes msg, refl, refl, refl, refl, refl, refl)
