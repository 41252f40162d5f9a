-- ===== src/Host/Drain.antt =====
-- A walk of the listener along a stack, as a pass over the list of packets that the stack holds.
use async_gpu.Prelude.{
  ℕ, ◌≡◌, ◌≢◌, refl, sym, ap, ◌∙◌, List, [], ◌∷◌, ◌++◌, some, All, append-nil, append_assoc, ne→==,
  eq→==,
}
use async_gpu.Protocol.Tagged.{null_index, null_tagged, tagged_index, tagged_index-null_tagged}
use async_gpu.Hostcall.Buffer.{Packet, Buffer, StackPtr, load, store, load-store, packets-store}
use async_gpu.Hostcall.Stack.{Schedule}
use async_gpu.Hostcall.Chain.{Chain, Chain-cong, Holds}
use async_gpu.Host.Os.{Os}
use async_gpu.Host.Resources.{Sideband}
use async_gpu.Host.Console.{Shown}
use async_gpu.Host.IoThread.{IoRequest}
use async_gpu.Host.Listener.{Listener, drain, scan_stack}
use async_gpu.Host.Serve.{control_served, forwarded, shown_for, serve_packet-Serves}

-- The schedule lasts for the packets, and what other threads do after a packet leaves those that
-- are still to come alone.
abbrev pub Spares : Schedule → List ℕ → Type 0
Spares [] xs = ⊥
Spares (others ∷ rest) [] = Unit
Spares (others ∷ rest) (x ∷ xs) =
    ((b : Buffer) → All (λ y. (others b).packets y ≡ b.packets y) xs) × Spares rest xs

abbrev pub Distinct : List ℕ → Type 0
Distinct [] = Unit
Distinct (x ∷ xs) = All (λ y. x ≢ y) xs × Distinct xs

-- The requests that a walk over these packets sends, in the order of the walk.
abbrev pub all_forwarded : (ℕ → Packet) → List ℕ → List IoRequest
all_forwarded packets [] = []
all_forwarded packets (x ∷ xs) = forwarded x (packets x) ++ all_forwarded packets xs

-- The packets are taken as they are before the walk.
all_forwarded-cong :
    (f g : ℕ → Packet) (xs : List ℕ)
    → All (λ x. f x ≡ g x) xs
    → all_forwarded f xs ≡ all_forwarded g xs
all_forwarded-cong f g [] h = refl
all_forwarded-cong f g (x ∷ xs) h = rw (h.0, all_forwarded-cong f g xs h.1) refl

-- The lines that a walk over these packets shows, in the order of the walk.
abbrev pub all_shown :
    {W Handle : Type 0} → Os W Handle → Sideband → (ℕ → Packet) → List ℕ → List Shown
all_shown sys sideband packets [] = []
all_shown sys sideband packets (x ∷ xs) =
    shown_for sys sideband (packets x) ++ all_shown sys sideband packets xs

all_shown-cong :
    {W Handle : Type 0} (sys : Os W Handle) (sideband : Sideband) (f g : ℕ → Packet) (xs : List ℕ)
    → All (λ x. f x ≡ g x) xs
    → all_shown sys sideband f xs ≡ all_shown sys sideband g xs
all_shown-cong sys sideband f g [] h = refl
all_shown-cong sys sideband f g (x ∷ xs) h = rw (h.0, all_shown-cong sys sideband f g xs h.1) refl

All-map : {P Q : ℕ → Type 0} (xs : List ℕ) → ((x : ℕ) → P x → Q x) → All P xs → All Q xs
All-map [] k h = tt
All-map (x ∷ xs) k h = (k x h.0, All-map xs k h.1)

All-both :
    {P Q R : ℕ → Type 0} (xs : List ℕ)
    → ((x : ℕ) → P x → Q x → R x)
    → All P xs
    → All Q xs
    → All R xs
All-both [] k h g = tt
All-both (x ∷ xs) k h g = (k x h.0 g.0, All-both xs k h.1 g.1)

-- A chain only sees the packets on it.
Chain-agree :
    (f g : ℕ → Packet) (head : ℕ) (xs : List ℕ)
    → All (λ x. g x ≡ f x) xs
    → Chain f head xs
    → Chain g head xs
Chain-agree f g head [] h c = c
Chain-agree f g head (x ∷ xs) h c = (c.0, c.1, rw h.0 (Chain-agree f g (f x).next xs h.1 c.2))

-- No entry of the schedule changes packet `y`, or the stack at `p`.
abbrev pub Leaves : Schedule → ℕ → Type 0
Leaves s y = All (λ others. (b : Buffer) → (others b).packets y ≡ b.packets y) s

abbrev pub LeavesStack : Schedule → StackPtr → Type 0
LeavesStack s p = All (λ others. (b : Buffer) → load p (others b) ≡ load p b) s

-- What a walk over these packets comes to: the requests sent and the lines shown; the control word of each packet that
-- the schedule leaves alone; and the other packets and the stacks unless the schedule changes them.
pub record Drained {W : Type 0} (s : Schedule) (xs : List ℕ) (lines : List Shown)
    (l l' : Listener W) : Type 0 where
  pub sent_is : l'.sent ≡ l.sent ++ all_forwarded l.buffer.packets xs
  pub shown_is : l'.shown ≡ l.shown ++ lines
  pub controls :
      All (λ x. Leaves s x → (l'.buffer.packets x).control ≡ control_served (l.buffer.packets x)) xs
  pub rest_kept :
      (y : ℕ) → All (λ x. y ≢ x) xs → Leaves s y → l'.buffer.packets y ≡ l.buffer.packets y
  pub stacks_kept : (p : StackPtr) → LeavesStack s p → load p l'.buffer ≡ load p l.buffer

module _ {W Handle : Type 0} (sys : Os W Handle) where
  pub drain-Drained :
      (s : Schedule) (head : ℕ) (xs : List ℕ) (l : Listener W)
      → Spares s xs
      → Distinct xs
      → Chain l.buffer.packets head xs
      → (l' : Listener W) × (drain sys s head l ≡ some l')
        × Drained s xs (all_shown sys l.sideband l.buffer.packets xs) l l'
  unfolding drain
  drain-Drained [] head xs l p d c = absurd p
  drain-Drained (others ∷ rest) head [] l p d c = (
    l,
    rw (eq→== _ _ c) refl,
    record {
      sent_is = sym (append-nil l.sent);
      shown_is = sym (append-nil l.shown);
      controls = tt;
      rest_kept = λ y ne k. refl;
      stacks_kept = λ q k. refl;
    },
  )
  drain-Drained (others ∷ rest) head (x ∷ xs) l p d c =
      let (l₁, e, s) = serve_packet-Serves sys x l in
      let l₂ = record l₁ { buffer = others l₁.buffer } in
      let agree = All-both xs (λ y q ne. q ∙ s.others_kept y ne) (p.0 l₁.buffer) d.0 in
      let chain = Chain-agree l.buffer.packets l₂.buffer.packets _ xs agree c.2 in
      let (l', f, t) = drain-Drained rest (l.buffer.packets x).next xs l₂ p.1 d.1 chain in
      (
        l',
        (rw (c.0, ne→== x null_index c.1, e) f),
        record {
          sent_is =
              t.sent_is
              ∙ ap (λ r. r ++ all_forwarded l₂.buffer.packets xs) s.sent_is
              ∙ ap (λ r. (l.sent ++ forwarded x (l.buffer.packets x)) ++ r)
                  (all_forwarded-cong l₂.buffer.packets l.buffer.packets xs agree)
              ∙ append_assoc l.sent (forwarded x (l.buffer.packets x)) _;
          shown_is =
              t.shown_is
              ∙ ap (λ r. r ++ all_shown sys l₂.sideband l₂.buffer.packets xs) s.shown_is
              ∙ ap
                  (λ sb.
                    (l.shown ++ shown_for sys l.sideband (l.buffer.packets x))
                    ++ all_shown sys sb l₂.buffer.packets xs)
                  s.sideband_kept
              ∙ ap (λ r. (l.shown ++ shown_for sys l.sideband (l.buffer.packets x)) ++ r)
                  (all_shown-cong sys l.sideband l₂.buffer.packets l.buffer.packets xs agree)
              ∙ append_assoc l.shown (shown_for sys l.sideband (l.buffer.packets x)) _;
          controls = (
            (λ k.
                ap (λ (pkt : Packet). pkt.control) (t.rest_kept x d.0 k.1 ∙ k.0 l₁.buffer)
                ∙ s.control_is),
            All-both xs (λ y g q k. g k.1 ∙ ap control_served q) t.controls agree,
          );
          rest_kept = λ y ne k.
              t.rest_kept y ne.1 k.1 ∙ k.0 l₁.buffer ∙ s.others_kept y (λ q. ne.0 (sym q));
          stacks_kept = λ q k. t.stacks_kept q k.1 ∙ k.0 l₁.buffer ∙ s.stacks_kept q;
        },
      )

  -- The schedule lasts for the packets of a ready stack and spares those to come. Then the scan of
  -- the stack ends. It sends a request to the I/O thread for each filled packet with a service that
  -- may block, in the order of the stack, and no other, and shows, once and in the same order, what
  -- each filled packet that prints, panics or traces has in its payload. A packet of the stack that no other thread
  -- changes gets the control word that its service asks for; a packet off the stack that no other
  -- thread changes keeps its contents; and if no other thread pushes, the stack is empty.
  pub scan_stack_refines :
      (s : Schedule) (p : StackPtr) (xs : List ℕ) (l : Listener W)
      → Spares s xs
      → Distinct xs
      → Holds l.buffer p xs
      → (l' : Listener W) × (scan_stack sys s p l ≡ some l')
        × (l'.sent ≡ l.sent ++ all_forwarded l.buffer.packets xs)
        × (l'.shown ≡ l.shown ++ all_shown sys l.sideband l.buffer.packets xs)
        × All
            (λ x. Leaves s x → (l'.buffer.packets x).control ≡ control_served (l.buffer.packets x))
            xs
        × ((y : ℕ) → All (λ x. y ≢ x) xs → Leaves s y → l'.buffer.packets y ≡ l.buffer.packets y)
        × (LeavesStack s p → Holds l'.buffer p [])
  unfolding scan_stack
  scan_stack_refines s p xs l spares d c =
      let b₁ = store p null_tagged l.buffer in
      let same = packets-store p null_tagged l.buffer in
      let l₁ = record l { buffer = b₁ } in
      let chain = Chain-cong xs same refl c in
      let (l', e, t) = drain-Drained s (load p l.buffer) xs l₁ spares d chain in
      (
        l',
        e,
        t.sent_is ∙ ap (λ m. l.sent ++ all_forwarded m xs) same,
        t.shown_is ∙ ap (λ m. l.shown ++ all_shown sys l.sideband m xs) same,
        All-map xs (λ x g k. g k ∙ ap (λ (m : ℕ → Packet). control_served (m x)) same) t.controls,
        (λ y ne k. t.rest_kept y ne k ∙ ap (λ (m : ℕ → Packet). m y) same),
        (λ k.
            ap tagged_index (t.stacks_kept p k ∙ load-store p null_tagged l.buffer)
            ∙ tagged_index-null_tagged),
      )
