-- ===== src/Hostcall/Aba.antt =====
-- The tags of the stack heads of Stack, and `hc_pop_free_from` when it is overtaken.
use async_gpu.Prelude.{
  ℕ, ◌<◌, ◌≡◌, ◌≢◌, sym, ap, ap₂, ◌∙◌, [], ◌∷◌, some, update_ne, arith, wrapping_add,
}
use async_gpu.Protocol.Tagged.{
  null_index, tagged_index, tagged_tag, make_tagged, tagged_tag-make_tagged,
}
use async_gpu.Hostcall.Buffer.{Buffer, Packet, StackPtr, load, sys_cas_u64, load-store, store}
use async_gpu.Hostcall.Stack.{quiet, hc_pop_free_from, hc_push_with, observe, commit}
use async_gpu.Hostcall.Chain.{
  pushed, popped, hc_push_with-quiet, hc_pop_quiet, load-pushed, packets-pushed, load-popped,
  packets-popped, index-pushed, next-pushed,
}

-- The head that a push leaves depends on the tag below it and on the packet alone.
pub load-pushed_cong :
    (p : StackPtr) (i : ℕ) (b c : Buffer)
    → tagged_tag (load p b) ≡ tagged_tag (load p c)
    → load p (pushed p i b) ≡ load p (pushed p i c)
load-pushed_cong p i b c e =
    load-pushed p i b ∙ ap (λ (t : ℕ). make_tagged (wrapping_add t 1) i) e ∙ sym (load-pushed p i c)

pub tag-pushed :
    (p : StackPtr) (i : ℕ) (b : Buffer)
    → i < null_index
    → tagged_tag (load p (pushed p i b)) ≡ wrapping_add (tagged_tag (load p b)) 1
tag-pushed p i b h =
    ap tagged_tag (load-pushed p i b) ∙ tagged_tag-make_tagged _ i (omega arith) (omega arith)

-- A pop undoes a push to the last bit of the head, its tag included.
pub load-popped-pushed :
    (p : StackPtr) (i : ℕ) (b : Buffer)
    → i < null_index
    → load p (popped p (pushed p i b)) ≡ load p b
load-popped-pushed p i b h =
    load-popped p (pushed p i b)
    ∙ ap (λ (j : ℕ). ((pushed p i b).packets j).next) (index-pushed p i b (omega arith))
    ∙ next-pushed p i b

pop_top :
    (p : StackPtr) (i : ℕ) (b : Buffer)
    → i < null_index
    → tagged_index (load p b) ≡ i
    → hc_pop_free_from quiet p b ≡ some (i, popped p b)
pop_top p i b h e = hc_pop_quiet p b (λ q. ne (sym e ∙ q)) ∙ ap (λ (j : ℕ). some (j, popped p b)) e
  where
    ne : i ≢ null_index
    ne = omega arith

-- A round that is overtaken wins its compare-and-swap if it finds the head that it read.
pub pop_overtaken :
    (p : StackPtr) (b c : Buffer)
    → tagged_index (load p b) ≢ null_index
    → load p c ≡ load p b
    → hc_pop_free_from ((λ _. c) ∷ []) p b
      ≡ some (tagged_index (load p b), store p (b.packets (tagged_index (load p b))).next c)
unfolding hc_pop_free_from observe commit sys_cas_u64
pop_overtaken p b c ne e = ground arith

module _ (p : StackPtr) (x y w : ℕ) (b : Buffer) (hx : x < null_index) (hy : y < null_index)
    (hw : w < null_index) (apart : x ≢ y) where
  -- `x` on `y` on the stack of `b`
  abbrev pub start : Buffer
  start = pushed p x (pushed p y b)

  -- What the other threads do: take `x`, take `y`, release `w`, release `x`.
  abbrev pub overtaken : Buffer
  overtaken = pushed p x (pushed p w (popped p (popped p start)))

  one_popped : load p (popped p start) ≡ load p (pushed p y b)
  one_popped = load-popped-pushed p x (pushed p y b) hx

  link_kept : (start.packets y).next ≡ load p b
  link_kept =
      ap (λ (m : ℕ → Packet). (m y).next) (packets-pushed p x (pushed p y b))
      ∙ ap (λ (pkt : Packet). pkt.next) (update_ne (pushed p y b).packets x y _ apart)
      ∙ next-pushed p y b

  two_popped : load p (popped p (popped p start)) ≡ load p b
  two_popped =
      load-popped p (popped p start)
      ∙ ap₂ (λ (m : ℕ → Packet) (i : ℕ). (m i).next) (packets-popped p start)
          (ap tagged_index one_popped ∙ index-pushed p y b (omega arith))
      ∙ link_kept

  -- The head is the one that the slow thread read, tag and all.
  pub same_head : load p overtaken ≡ load p start
  same_head = load-pushed_cong p x (pushed p w (popped p (popped p start))) (pushed p y b) (
      tag-pushed p w (popped p (popped p start)) hw
      ∙ ap (λ (h : ℕ). wrapping_add (tagged_tag h) 1) two_popped
      ∙ sym (tag-pushed p y b hy))

  -- The buffer after the compare-and-swap of the slow thread.
  abbrev pub corrupted : Buffer
  corrupted = store p (load p (pushed p y b)) overtaken

  start_top : tagged_index (load p start) ≡ x
  start_top = index-pushed p x (pushed p y b) (omega arith)

  start_next : (start.packets (tagged_index (load p start))).next ≡ load p (pushed p y b)
  start_next = ap (λ (j : ℕ). (start.packets j).next) start_top ∙ next-pushed p x (pushed p y b)

  slow_pop : hc_pop_free_from ((λ _. overtaken) ∷ []) p start ≡ some (x, corrupted)
  slow_pop =
      pop_overtaken p start overtaken (λ q. ne (sym start_top ∙ q)) same_head
      ∙ ap₂ (λ (i : ℕ) (h : ℕ). some (i, store p h overtaken)) start_top start_next
    where
      ne : x ≢ null_index
      ne = omega arith

  -- The tags do not prevent ABA. Take any buffer and any stack of it, and packets `x`, `y` and `w`
  -- below NULL_INDEX, `x` and `y` different; push `y`, then `x`. Let a thread start to pop, and before
  -- its compare-and-swap let others pop `x`, pop `y`, push `w` and push `x` back. Then the
  -- compare-and-swap of the slow thread succeeds and gives it `x`, and a further pop hands out `y`,
  -- although the thread that popped `y` still owns it.
  pub aba_double_ownership :
      (b₁ b₂ b₃ b₄ b₅ b₆ : Buffer) × (hc_pop_free_from quiet p start ≡ some (x, b₁))
      × (hc_pop_free_from quiet p b₁ ≡ some (y, b₂))
      × (hc_push_with quiet p w b₂ ≡ some b₃)
      × (hc_push_with quiet p x b₃ ≡ some b₄)
      × (hc_pop_free_from ((λ _. b₄) ∷ []) p start ≡ some (x, b₅))
      × (hc_pop_free_from quiet p b₅ ≡ some (y, b₆))
  aba_double_ownership = (
    popped p start,
    popped p (popped p start),
    pushed p w (popped p (popped p start)),
    overtaken,
    corrupted,
    popped p corrupted,
    pop_top p x start hx start_top,
    pop_top p y (popped p start) hy (ap tagged_index one_popped ∙ index-pushed p y b (omega arith)),
    hc_push_with-quiet p w (popped p (popped p start)),
    hc_push_with-quiet p x (pushed p w (popped p (popped p start))),
    slow_pop,
    pop_top p y corrupted hy (
        ap tagged_index (load-store p (load p (pushed p y b)) overtaken)
        ∙ index-pushed p y b (omega arith)),
  )
