-- ===== src/Host/Frames.antt =====
-- The loop of handle_bulk_print: that it ends, and what it shows of messages framed with their
-- lengths.
use async_gpu.Prelude.{
  ℕ, zero, suc, ◌+◌, ◌*◌, ◌/◌, ◌%◌, ◌^◌, ◌<◌, ◌≤◌, ◌≡◌, ◌≢◌, refl, sym, ap, ap₂, subst, ◌∙◌, ◌==◌,
  leb, ltb, true, false, ◌||◌, List, [], ◌∷◌, ◌++◌, map, Option, none, some, inl, inr, Bool-cases,
  arith, length, length-append, All, read_from, read_u64, u32, eq→==, ==_iff, append_assoc, ◌⊎◌,
}
use async_gpu.Host.Os.{Os}
use async_gpu.Host.Resources.{Sideband}
use async_gpu.Host.Console.{Shown, printed, behind, bulk_print_loop, handle_bulk_print}

behind-ne : (line : Shown) (o : Option (List Shown)) → o ≢ none → behind line o ≢ none
behind-ne line none h e = h refl
behind-ne line (some lines) h e = cc

module _ {W Handle : Type 0} (sys : Os W Handle) (pre : List ℕ) (region : ℕ → ℕ) (start : ℕ) where
  pub bulk_print_loop_ends :
      (fuel data_len pos : ℕ)
      → pos ≤ data_len
      → data_len < pos + 2 * fuel
      → bulk_print_loop sys fuel pre region start data_len pos ≢ none
  unfolding bulk_print_loop
  bulk_print_loop_ends zero data_len pos h k = absurd (omega arith)
  bulk_print_loop_ends (suc fuel) data_len pos h k =
      let n : ℕ = region (start + pos) + region (start + pos + 1) * 256 in
      elim (Bool-cases (leb (pos + 2) data_len)) [
        | inr short ↦ rw short (λ e. cc)
        | inl fits ↦ rw fits (elim (Bool-cases ((n == 0) || ltb data_len (pos + 2 + n))) [
          | inl stop ↦ rw stop (λ e. cc)
          | inr go ↦ rw go (
              behind-ne _ _
                (bulk_print_loop_ends fuel data_len (pos + 2 + n) (ground arith) (ground arith)))
        ])
      ]

pub bulk_print_ends :
    {W Handle : Type 0} (sys : Os W Handle) (sideband : Sideband) (payload : ℕ → ℕ)
    → handle_bulk_print sys sideband payload ≢ none
unfolding handle_bulk_print
bulk_print_ends sys sideband payload = elim (Bool-cases (read_u64 payload 8 == 0)) [
  | inl e ↦ rw e (λ f. cc)
  | inr e ↦ rw e (
      bulk_print_loop_ends sys _ _ _ (read_u64 payload 8 / 2 + 1) (read_u64 payload 8) 0
        (omega arith) (omega arith))
]

-- A message behind its length in two bytes, low byte first, as print_buffer.rs writes it.
abbrev pub frame : List ℕ → List ℕ
frame msg = length msg % 256 ∷ length msg / 256 ∷ msg

abbrev pub frames : List (List ℕ) → List ℕ
frames [] = []
frames (msg ∷ rest) = frame msg ++ frames rest

-- The parts of a region that holds one list and then another.
read_from-split :
    (region : ℕ → ℕ) (i : ℕ) (xs ys : List ℕ)
    → read_from region i (length (xs ++ ys)) ≡ xs ++ ys
    → (read_from region i (length xs) ≡ xs) × (read_from region (i + length xs) (length ys) ≡ ys)
unfolding read_from
read_from-split region i [] ys h =
    (refl, subst (λ j. read_from region j (length ys) ≡ ys) (omega arith) h)
read_from-split region i (x ∷ xs) ys h =
    let hd : region i ≡ x = cc in
    let tl : read_from region (suc i) (length (xs ++ ys)) ≡ xs ++ ys = cc in
    let (l, r) = read_from-split region (suc i) xs ys tl in
    (ap₂ ◌∷◌ hd l, subst (λ j. read_from region j (length ys) ≡ ys) (omega arith) r)

read_from-frame :
    (region : ℕ → ℕ) (i : ℕ) (msg ys : List ℕ)
    → read_from region i (length (frame msg ++ ys)) ≡ frame msg ++ ys
    → (region i ≡ length msg % 256)
      × (region (i + 1) ≡ length msg / 256)
      × (read_from region (i + 2) (length msg) ≡ msg)
      × (read_from region (i + 2 + length msg) (length ys) ≡ ys)
unfolding read_from
read_from-frame region i msg ys h =
    let e₁ : suc i ≡ i + 1 = omega arith in
    let e₂ : suc (suc i) ≡ i + 2 = omega arith in
    let (m, r) = read_from-split region (suc (suc i)) msg ys cc in
    (
      cc,
      subst (λ j. region j ≡ length msg / 256) e₁ cc,
      subst (λ j. read_from region j (length msg) ≡ msg) e₂ m,
      subst (λ j. read_from region (j + length msg) (length ys) ≡ ys) e₂ r,
    )

places : (start pos n : ℕ) → start + pos + 2 + n ≡ start + (pos + 2 + n)
places start pos n = omega arith

two_bytes : (a b n : ℕ) → a ≡ n % 256 → b ≡ n / 256 → a + b * 256 ≡ n
two_bytes a b n e f = omega arith

short-leb : (pos data_len : ℕ) → data_len < pos + 2 → leb (pos + 2) data_len ≡ false
short-leb pos data_len h = ground arith

abbrev pub Framed : List ℕ → Type 0
Framed msg = (1 ≤ length msg) × (length msg < 2 ^ 16)

module _ {W Handle : Type 0} (sys : Os W Handle) (pre : List ℕ) (region : ℕ → ℕ) (start : ℕ) where
  -- A round on a message of length `n`.
  loop-step :
      (fuel data_len pos n : ℕ)
      → region (start + pos) + region (start + pos + 1) * 256 ≡ n
      → 1 ≤ n
      → pos + 2 + n ≤ data_len
      → bulk_print_loop sys (suc fuel) pre region start data_len pos
        ≡ behind
            (printed (pre ++ read_from region (start + pos + 2) n))
            (bulk_print_loop sys fuel pre region start data_len (pos + 2 + n))
  unfolding bulk_print_loop
  loop-step fuel data_len pos n e h k =
      let fits : leb (pos + 2) data_len ≡ true = ground arith in
      let go : ((n == 0) || ltb data_len (pos + 2 + n)) ≡ false = ground arith in
      rw (e, fits, go) refl

  -- The loop on frames from `pos` on, up to a place where it stops.
  loop-frames :
      (fuel data_len pos : ℕ) (msgs : List (List ℕ)) (ys : List ℕ)
      → All Framed msgs
      → pos + length (frames msgs ++ ys) ≡ data_len
      → data_len < pos + 2 * fuel
      → read_from region (start + pos) (length (frames msgs ++ ys)) ≡ frames msgs ++ ys
      → ((f : ℕ) (p : ℕ)
          → p + length ys ≡ data_len
          → read_from region (start + p) (length ys) ≡ ys
          → bulk_print_loop sys (suc f) pre region start data_len p ≡ some [])
      → bulk_print_loop sys fuel pre region start data_len pos
        ≡ some (map (λ msg. printed (pre ++ msg)) msgs)
  loop-frames zero data_len pos msgs ys a e k h stop = absurd (omega arith)
  loop-frames (suc fuel) data_len pos [] ys a e k h stop = stop fuel pos e h
  loop-frames (suc fuel) data_len pos (msg ∷ rest) ys a e k h stop =
      let tail = frames rest ++ ys in
      let assoc = append_assoc (frame msg) (frames rest) ys in
      let h' = subst (λ bytes. read_from region (start + pos) (length bytes) ≡ bytes) assoc h in
      let (b₀, b₁, m, r) = read_from-frame region (start + pos) msg tail h' in
      let long = ap length assoc ∙ length-append (frame msg) tail in
      let at = ap (λ j. read_from region j (length tail)) (places start pos (length msg)) in
      let next =
        loop-frames fuel data_len (pos + 2 + length msg) rest ys a.1 (omega arith) (omega arith)
          (sym at ∙ r) stop in
      loop-step fuel data_len pos (length msg) (two_bytes _ _ _ b₀ b₁) a.0.0 (omega arith)
      ∙ ap₂ (λ bytes. behind (printed (pre ++ bytes))) m next

  at_end :
      (data_len f p : ℕ)
      → p + 0 ≡ data_len
      → bulk_print_loop sys (suc f) pre region start data_len p ≡ some []
  unfolding bulk_print_loop
  at_end data_len f p e = rw (short-leb p data_len (omega arith)) refl

  at_empty :
      (data_len f p : ℕ) (ys : List ℕ)
      → read_from region (start + p) (length (frame [] ++ ys)) ≡ frame [] ++ ys
      → bulk_print_loop sys (suc f) pre region start data_len p ≡ some []
  unfolding bulk_print_loop
  at_empty data_len f p ys h =
      let (b₀, b₁, _, _) = read_from-frame region (start + p) [] ys h in
      let stop : ((region (start + p) + region (start + p + 1) * 256) == 0) ≡ true =
        eq→== _ _ (two_bytes _ _ 0 b₀ b₁) in
      elim (Bool-cases (leb (p + 2) data_len)) [
        | inl fits ↦ rw (fits, stop) refl
        | inr short ↦ rw short refl
      ]

  stops :
      (data_len : ℕ) (ys : List ℕ)
      → (ys ≡ []) ⊎ ((zs : List ℕ) × (ys ≡ frame [] ++ zs))
      → (f : ℕ) (p : ℕ) → p + length ys ≡ data_len
      → read_from region (start + p) (length ys) ≡ ys
      → bulk_print_loop sys (suc f) pre region start data_len p ≡ some []
  stops data_len ys (inl e) f p k h = at_end data_len f p (omega (arith, k, ap length e))
  stops data_len ys (inr (zs, e)) f p k h =
      at_empty data_len f p zs (subst (λ l. read_from region (start + p) (length l) ≡ l) e h)

zero_end : (n : ℕ) → n ≡ n + 0
zero_end n = omega arith

-- The guard on an empty buffer does not matter.
handle-loop :
    {W Handle : Type 0} (sys : Os W Handle) (sideband : Sideband) (payload : ℕ → ℕ)
    → let meta = read_u64 payload 16 in
      handle_bulk_print sys sideband payload
      ≡ bulk_print_loop sys
          (read_u64 payload 8 / 2 + 1)
          (sys.prefix (u32 (meta / 2 ^ 32)) (u32 meta))
          sideband.data_region
          (read_u64 payload 0)
          (read_u64 payload 8)
          0
unfolding handle_bulk_print bulk_print_loop
handle-loop sys sideband payload = elim (Bool-cases (read_u64 payload 8 == 0)) [
  | inl e ↦ rw ((==_iff _ _).0 e) refl
  | inr e ↦ rw e refl
]

-- The request names data in the sideband buffer: messages, each of at least one byte and fewer than
-- 2 ^ 16, framed by their lengths one behind the other, and then nothing or the frame of an empty
-- message with any bytes behind. Then the handler shows the messages before that in order, each
-- behind the prefix of the block and the thread, and nothing else.
pub handle_bulk_print-frames :
    {W Handle : Type 0} (sys : Os W Handle) (sideband : Sideband) (payload : ℕ → ℕ)
    (msgs : List (List ℕ)) (ys : List ℕ)
    → All Framed msgs
    → (ys ≡ []) ⊎ ((zs : List ℕ) × (ys ≡ frame [] ++ zs))
    → read_u64 payload 8 ≡ length (frames msgs ++ ys)
    → read_from sideband.data_region (read_u64 payload 0) (length (frames msgs ++ ys))
      ≡ frames msgs ++ ys
    → let meta = read_u64 payload 16 in
      handle_bulk_print sys sideband payload
      ≡ some (map (λ msg. printed (sys.prefix (u32 (meta / 2 ^ 32)) (u32 meta) ++ msg)) msgs)
unfolding handle_bulk_print
handle_bulk_print-frames sys sideband payload msgs ys a t e h =
    let meta : ℕ = read_u64 payload 16 in
    let len : ℕ = read_u64 payload 8 in
    let off : ℕ = read_u64 payload 0 in
    let region = sideband.data_region in
    let pre = sys.prefix (u32 (meta / 2 ^ 32)) (u32 meta) in
    let at =
      subst (λ j. read_from region j (length (frames msgs ++ ys)) ≡ frames msgs ++ ys)
        (zero_end off) h in
    handle-loop sys sideband payload
    ∙ loop-frames sys pre region off (len / 2 + 1) len 0 msgs ys a (omega arith) (omega arith) at
        (stops sys pre region off len ys t)
