-- ===== src/Recorder/Entry.antt =====
-- One slot of Recorder, from what a record writes to what the dump shows.
use async_gpu.Prelude.{
  ℕ, ◌-◌, ◌^◌, ◌<◌, ◌≤◌, ◌≡◌, ◌∙◌, refl, sym, ap, inl, inr, ltb, List, ◌++◌, length, take,
  replicate, length-take, take-append, take-eq_self, arith, ltb→le, Bool-cases, u8, u16, le→ltb,
}
use async_gpu.Protocol.Metadata.{decode-encode_trace_metadata}
use async_gpu.Recorder.{Event, Shown, copy_len, written, entry}

-- The event as the dump should show it.
abbrev pub shown : Event → Shown
shown e = record {
  thread_idx = u16 e.thread_idx;
  block_idx = u16 e.block_idx;
  level = e.level;
  lane = u16 e.lane;
  timestamp = e.timestamp;
  msg = take 48 e.msg;
}

copy_len-le : (msg : List ℕ) → copy_len msg ≤ 48
unfolding copy_len
copy_len-le msg = ground arith

copy_len-length : (msg : List ℕ) → copy_len msg ≤ length msg
unfolding copy_len
copy_len-length msg = ground arith

take-copy_len : (msg : List ℕ) → take (copy_len msg) msg ≡ take 48 msg
unfolding copy_len
take-copy_len msg = elim (Bool-cases (ltb 48 (length msg))) [
  | inl long ↦ rw long refl
  | inr short ↦ rw short (
      take-eq_self (length msg) msg (omega arith)
      ∙ sym (take-eq_self 48 msg (ltb→le 48 (length msg) short)))
]

-- The message read back from the padded bytes.
message_lem :
    (msg : List ℕ)
    → take (copy_len msg) (take (copy_len msg) msg ++ replicate (48 - copy_len msg) 0) ≡ take 48 msg
message_lem msg =
    let len : length (take (copy_len msg) msg) ≡ copy_len msg =
      omega (arith, length-take (copy_len msg) msg, copy_len-length msg) in
    let whole = take-append (take (copy_len msg) msg) (replicate (48 - copy_len msg) 0) in
    rw len at whole ∙ take-copy_len msg

pub entry-written : (e : Event) → e.level < 2 ^ 8 → entry (written e) ≡ shown e
unfolding entry written
entry-written e h =
    let le = copy_len-le e.msg in
    let small : u8 (copy_len e.msg) ≡ copy_len e.msg = omega arith in
    let fields =
      (decode-encode_trace_metadata (u16 e.thread_idx) (u16 e.block_idx) e.level
        (u8 (copy_len e.msg)) (u16 e.lane) (omega arith) (omega arith) h (omega arith)
        (omega arith)).0 in
    rw (fields, small, le→ltb 48 (copy_len e.msg) le)
      (ap (λ (m : List ℕ). record (shown e) { msg = m }) (message_lem e.msg))
