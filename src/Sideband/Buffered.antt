-- ===== src/Sideband/Buffered.antt =====
-- The print buffer as a list of messages, and what the host shows of it.
use async_gpu.Prelude.{
  ℕ, ◌+◌, ◌*◌, ◌/◌, ◌%◌, ◌^◌, ◌<◌, ◌≤◌, ◌≡◌, refl, sym, ap, ap₂, subst, ◌∙◌, inl, inr, List, [],
  ◌∷◌, ◌++◌, map, some, All, arith, append-nil, append_assoc, length, length-append, u16, u32,
  write_from, write_u16, write_u32, write_u64, read_u32, read_u64, read_from, write_from-append,
  read_from-append, read_from-write_from, read_from-write_from_out, read_u32-write_u32,
  read_u64-write_u64, read_u32-write_u32_out, read_u64-write_u64_out, read_from-write_u32,
}
use async_gpu.Hostcall.Request.{World}
use async_gpu.Host.Os.{Os}
use async_gpu.Host.Resources.{Sideband}
use async_gpu.Host.Console.{printed, handle_bulk_print}
use async_gpu.Host.Frames.{frame, frames, Framed, handle_bulk_print-frames}
use async_gpu.Sideband.PrintBuffer.{
  slot_ptr, slot_header, slot_size, slot_data_size, clear, append, flush_payload,
}

-- The slot of the thread holds these messages.
pub record Gathered (t : ℕ) (region : ℕ → ℕ) (msgs : List (List ℕ)) : Type 0 where
  pub offset_is : read_u32 region (slot_ptr t) ≡ length (frames msgs)
  pub bytes_are : read_from region (slot_ptr t + slot_header) (length (frames msgs)) ≡ frames msgs
  pub fits : length (frames msgs) ≤ slot_data_size

frames-snoc :
    (msgs : List (List ℕ)) (msg : List ℕ) → frames (msgs ++ msg ∷ []) ≡ frames msgs ++ frame msg
frames-snoc [] msg = append-nil (frame msg)
frames-snoc (m ∷ msgs) msg =
    ap (λ l. frame m ++ l) (frames-snoc msgs msg)
    ∙ sym (append_assoc (frame m) (frames msgs) (frame msg))

-- An empty slot holds nothing.
pub clear-Gathered : (t : ℕ) (region : ℕ → ℕ) → Gathered t (clear t region) []
unfolding clear read_from
clear-Gathered t region = record {
  offset_is =
      read_u32-write_u32_out _ (slot_ptr t) (slot_ptr t + 4) 0 (inl (omega arith))
      ∙ read_u32-write_u32 region (slot_ptr t) 0 (omega arith);
  bytes_are = refl;
  fits = omega arith;
}

frame_bytes :
    (region : ℕ → ℕ) (dst : ℕ) (msg : List ℕ)
    → length msg < 2 ^ 16
    → write_from (write_u16 region dst (u16 (length msg))) (dst + 2) msg
      ≡ write_from region dst (frame msg)
unfolding write_u16
frame_bytes region dst msg h =
    let lo : u16 (length msg) % 256 ≡ length msg % 256 = omega arith in
    let hi : u16 (length msg) / 256 % 256 ≡ length msg / 256 = omega arith in
    write_from-append region dst (dst + 2) _ msg (omega arith)
    ∙ ap₂ (λ a b. write_from region dst (a ∷ b ∷ msg)) lo hi

-- The new offset and the count.
abbrev put_counts : ℕ → ℕ → (ℕ → ℕ) → ℕ → ℕ
put_counts t off r =
    let r' = write_u32 r (slot_ptr t) (u32 off) in
    write_u32 r' (slot_ptr t + 4) (u32 (read_u32 r' (slot_ptr t + 4) + 1))

appended :
    (t : ℕ) (region : ℕ → ℕ) (msg : List ℕ) (n : ℕ)
    → read_u32 region (slot_ptr t) ≡ n
    → length msg < 2 ^ 16
    → append t msg region
      ≡ put_counts t
          (n + (2 + length msg))
          (write_from region (slot_ptr t + slot_header + n) (frame msg))
unfolding append
appended t region msg n e h = rw (e, frame_bytes region (slot_ptr t + slot_header + n) msg h) refl

-- A message that the slot has room for goes behind the others.
pub append-Gathered :
    (t : ℕ) (region : ℕ → ℕ) (msgs : List (List ℕ)) (msg : List ℕ)
    → Gathered t region msgs
    → length (frames msgs) + (2 + length msg) ≤ slot_data_size
    → Gathered t (append t msg region) (msgs ++ msg ∷ [])
append-Gathered t region msgs msg g room =
    let n : ℕ = length (frames msgs) in
    let slot : ℕ = slot_ptr t in
    let e = appended t region msg n g.offset_is (omega arith) in
    let snoc = frames-snoc msgs msg in
    let long = ap length snoc ∙ length-append (frames msgs) (frame msg) in
    let r₂ = write_from region (slot + slot_header + n) (frame msg) in
    let r₃ = write_u32 r₂ slot (u32 (n + (2 + length msg))) in
    let count : ℕ = u32 (read_u32 r₃ (slot + 4) + 1) in
    let small : u32 (n + (2 + length msg)) ≡ length (frames (msgs ++ msg ∷ [])) = omega arith in
    record {
      offset_is =
          ap (λ (r : ℕ → ℕ). read_u32 r slot) e
          ∙ read_u32-write_u32_out r₃ slot (slot + 4) count (inl (omega arith))
          ∙ read_u32-write_u32 r₂ slot (u32 (n + (2 + length msg))) (omega arith)
          ∙ small;
      bytes_are =
          ap (λ (r : ℕ → ℕ). read_from r (slot + slot_header) (length (frames (msgs ++ msg ∷ []))))
            e
          ∙ read_from-write_u32 r₃ (slot + slot_header) _ (slot + 4) count (inr (omega arith))
          ∙ read_from-write_u32 r₂ (slot + slot_header) _ slot _ (inr (omega arith))
          ∙ ap (λ l. read_from r₂ (slot + slot_header) (length l)) snoc
          ∙ read_from-append r₂ (slot + slot_header) (frames msgs) (frame msg)
          ∙ ap₂ ◌++◌
              (read_from-write_from_out region (slot + slot_header) n (slot + slot_header + n)
                  (frame msg) (inl (omega arith))
                ∙ g.bytes_are)
              (read_from-write_from region (slot + slot_header + n) (frame msg))
          ∙ sym snoc;
      fits = omega arith;
    }

All-Framed :
    (msgs : List (List ℕ))
    → length (frames msgs) < 2 ^ 16
    → All (λ msg. 1 ≤ length msg) msgs
    → All Framed msgs
All-Framed [] h a = tt
All-Framed (msg ∷ rest) h a =
    let long = length-append msg (frames rest) in
    ((a.0, omega arith), All-Framed rest (omega arith) a.1)

module _ (w : World) (t off : ℕ) (payload : ℕ → ℕ) where
  sent_place :
      t * slot_size + slot_header < 2 ^ 64
      → read_u64 (flush_payload w t off payload) 0 ≡ t * slot_size + slot_header
  unfolding flush_payload
  sent_place h =
      read_u64-write_u64_out _ 0 16 _ (inl (omega arith))
      ∙ read_u64-write_u64_out _ 0 8 _ (inl (omega arith))
      ∙ read_u64-write_u64 payload 0 _ h

  sent_len : off < 2 ^ 64 → read_u64 (flush_payload w t off payload) 8 ≡ off
  unfolding flush_payload
  sent_len h = read_u64-write_u64_out _ 8 16 _ (inl (omega arith)) ∙ read_u64-write_u64 _ 8 off h

  sent_meta :
      w.block_idx < 2 ^ 32
      → w.thread_idx < 2 ^ 32
      → (u32 (read_u64 (flush_payload w t off payload) 16 / 2 ^ 32) ≡ w.block_idx)
        × (u32 (read_u64 (flush_payload w t off payload) 16) ≡ w.thread_idx)
  unfolding flush_payload
  sent_meta h k =
      let meta =
        read_u64-write_u64 (write_u64 (write_u64 payload 0 (t * slot_size + slot_header)) 8 off) 16
          (w.block_idx * 2 ^ 32 + w.thread_idx) (omega arith) in
      rw meta (omega arith)

-- The slot of a thread holds messages of at least one byte, and the thread fills a packet to flush
-- them; its indices and those of its block are of 32 bits. The host's handler then shows the messages
-- in order, each whole and behind the prefix of the block and the thread.
pub handle_bulk_print-flush :
    {W Handle : Type 0} (sys : Os W Handle) (w : World) (t : ℕ) (sideband : Sideband)
    (msgs : List (List ℕ)) (payload : ℕ → ℕ)
    → t < 2 ^ 32
    → w.block_idx < 2 ^ 32
    → w.thread_idx < 2 ^ 32
    → All (λ msg. 1 ≤ length msg) msgs
    → Gathered t sideband.data_region msgs
    → handle_bulk_print sys sideband
        (flush_payload w t (read_u32 sideband.data_region (slot_ptr t)) payload)
      ≡ some (map (λ msg. printed (sys.prefix w.block_idx w.thread_idx ++ msg)) msgs)
handle_bulk_print-flush sys w t sideband msgs payload h k l a g =
    let off : ℕ = read_u32 sideband.data_region (slot_ptr t) in
    let p = flush_payload w t off payload in
    let n : ℕ = length (frames msgs) in
    let nil = append-nil (frames msgs) in
    let (block, thread) = sent_meta w t off payload k l in
    let data_is =
      ap (λ j. read_from sideband.data_region j n) (sent_place w t off payload (omega arith))
      ∙ g.bytes_are in
    handle_bulk_print-frames sys sideband p msgs [] (All-Framed msgs (omega (arith, g.fits)) a)
      (inl refl)
      (sent_len w t off payload (omega (arith, g.offset_is, g.fits))
        ∙ g.offset_is
        ∙ ap length (sym nil))
      (subst (λ bytes. read_from sideband.data_region (read_u64 p 0) (length bytes) ≡ bytes)
        (sym nil) data_is)
    ∙ ap₂ (λ b c. some (map (λ msg. printed (sys.prefix b c ++ msg)) msgs)) block thread
