-- ===== src/Hostcall/Chain.antt =====
-- What a stack of Stack holds, as a list, and push and pop with no other thread in between.
use async_gpu.Prelude.{
  ℕ, ◌^◌, ◌<◌, ◌≡◌, ◌≢◌, sym, ap, ◌∙◌, List, [], ◌∷◌, some, All, update, update_self, update_ne,
  arith, wrapping_add,
}
use async_gpu.Protocol.Tagged.{
  null_index, tagged_index, tagged_tag, make_tagged, tagged_index-make_tagged,
}
use async_gpu.Hostcall.Buffer.{
  Buffer, Packet, StackPtr, load, store, sys_cas_u64, store_next, load-store, packets-store,
  load-with_packet,
}
use async_gpu.Hostcall.Stack.{quiet, observe, commit, hc_pop_free_from, hc_push_with}

-- From the tagged pointer `head` the links lead through exactly these packets, top first.
abbrev pub Chain : (ℕ → Packet) → ℕ → List ℕ → Type 0
Chain packets head [] = tagged_index head ≡ null_index
Chain packets head (x ∷ xs) =
    (tagged_index head ≡ x) × (x ≢ null_index) × Chain packets (packets x).next xs

-- The stack at `p` holds these packets.
abbrev pub Holds : Buffer → StackPtr → List ℕ → Type 0
Holds b p xs = Chain b.packets (load p b) xs

-- A chain does not see a store to a packet that is not on it.
pub Chain-update :
    (packets : ℕ → Packet) (i : ℕ) (pkt : Packet) (head : ℕ) (xs : List ℕ)
    → All (λ x. i ≢ x) xs
    → Chain packets head xs
    → Chain (update packets i pkt) head xs
Chain-update packets i pkt head [] out c = c
Chain-update packets i pkt head (x ∷ xs) out c = (
  c.0,
  c.1,
  rw (update_ne packets i x pkt out.0) (Chain-update packets i pkt (packets x).next xs out.1 c.2),
)

pub Chain-cong :
    {packets packets' : ℕ → Packet} {head head' : ℕ} (xs : List ℕ)
    → packets' ≡ packets
    → head' ≡ head
    → Chain packets head xs
    → Chain packets' head' xs
Chain-cong xs e f c = rw (e, f) c

-- The buffer after a push in which no other thread interferes.
unfoldable pub pushed : StackPtr → ℕ → Buffer → Buffer
pushed p i b =
    store p (make_tagged (wrapping_add (tagged_tag (load p b)) 1) i) (store_next i (load p b) b)

pub hc_push_with-quiet :
    (p : StackPtr) (i : ℕ) (b : Buffer) → hc_push_with quiet p i b ≡ some (pushed p i b)
unfolding hc_push_with pushed sys_cas_u64 store_next
hc_push_with-quiet p i b =
    rw (load-with_packet p i (λ pkt. record pkt { next = load p b }) b) (ground arith)

-- The buffer after a pop of a packet in which no other thread interferes.
unfoldable pub popped : StackPtr → Buffer → Buffer
popped p b = store p (b.packets (tagged_index (load p b))).next b

pub hc_pop_quiet_empty :
    (p : StackPtr) (b : Buffer)
    → tagged_index (load p b) ≡ null_index
    → hc_pop_free_from quiet p b ≡ some (null_index, b)
unfolding hc_pop_free_from observe
hc_pop_quiet_empty p b e = rw e

pub hc_pop_quiet :
    (p : StackPtr) (b : Buffer)
    → tagged_index (load p b) ≢ null_index
    → hc_pop_free_from quiet p b ≡ some (tagged_index (load p b), popped p b)
unfolding hc_pop_free_from observe commit sys_cas_u64 popped
hc_pop_quiet p b ne = ground arith

pub load-pushed :
    (p : StackPtr) (i : ℕ) (b : Buffer)
    → load p (pushed p i b) ≡ make_tagged (wrapping_add (tagged_tag (load p b)) 1) i
unfolding pushed
load-pushed p i b = load-store p _ _

pub packets-pushed :
    (p : StackPtr) (i : ℕ) (b : Buffer)
    → (pushed p i b).packets ≡ update b.packets i (record (b.packets i) { next = load p b })
unfolding pushed store_next
packets-pushed p i b = packets-store p _ _

pub packets-popped : (p : StackPtr) (b : Buffer) → (popped p b).packets ≡ b.packets
unfolding popped
packets-popped p b = packets-store p _ b

pub load-popped :
    (p : StackPtr) (b : Buffer) → load p (popped p b) ≡ (b.packets (tagged_index (load p b))).next
unfolding popped
load-popped p b = load-store p _ b

pub index-pushed :
    (p : StackPtr) (i : ℕ) (b : Buffer) → i < 2 ^ 16 → tagged_index (load p (pushed p i b)) ≡ i
index-pushed p i b h = rw (load-pushed p i b) (tagged_index-make_tagged _ i h)

pub next-pushed : (p : StackPtr) (i : ℕ) (b : Buffer) → ((pushed p i b).packets i).next ≡ load p b
next-pushed p i b =
    ap (λ (m : ℕ → Packet). (m i).next) (packets-pushed p i b)
    ∙ ap (λ (pkt : Packet). pkt.next) (update_self b.packets i _)

pub Holds-pushed :
    (p : StackPtr) (i : ℕ) (b : Buffer) (xs : List ℕ)
    → i < null_index
    → All (λ x. i ≢ x) xs
    → Holds b p xs
    → Holds (pushed p i b) p (i ∷ xs)
Holds-pushed p i b xs h out c = (
  index-pushed p i b (omega arith),
  omega arith,
  Chain-cong xs (packets-pushed p i b) (next-pushed p i b)
      (Chain-update b.packets i (record (b.packets i) { next = load p b }) (load p b) xs out c),
)

pub Holds-popped :
    (p : StackPtr) (b : Buffer) (x : ℕ) (xs : List ℕ) → Holds b p (x ∷ xs) → Holds (popped p b) p xs
Holds-popped p b x xs c =
    Chain-cong xs (packets-popped p b) (load-popped p b ∙ ap (λ i. (b.packets i).next) c.0) c.2

-- With no other thread in its gap, one round of `hc_push_with` puts a packet whose index is below
-- NULL_INDEX and that is not on the stack on top of it.
pub push_refines :
    (p : StackPtr) (i : ℕ) (b : Buffer) (xs : List ℕ)
    → i < null_index
    → All (λ x. i ≢ x) xs
    → Holds b p xs
    → (b' : Buffer) × (hc_push_with quiet p i b ≡ some b') × Holds b' p (i ∷ xs)
push_refines p i b xs h out c =
    (pushed p i b, hc_push_with-quiet p i b, Holds-pushed p i b xs h out c)

-- What one round of `hc_pop_free_from` with no other thread in its gap does on a stack of these
-- packets: nothing and NULL_INDEX on an empty one, else it takes the top packet and leaves the rest.
abbrev pub Pops : StackPtr → Buffer → List ℕ → Type 0
Pops p b [] = hc_pop_free_from quiet p b ≡ some (null_index, b)
Pops p b (x ∷ rest) = (b' : Buffer) × (hc_pop_free_from quiet p b ≡ some (x, b')) × Holds b' p rest

-- On a stack that holds `xs`, one round of `hc_pop_free_from` with no other thread in its gap gives
-- NULL_INDEX and leaves the buffer unchanged if `xs` is empty, and otherwise takes the first of `xs`
-- and leaves a stack that holds the rest.
pub pop_refines : (p : StackPtr) (b : Buffer) (xs : List ℕ) → Holds b p xs → Pops p b xs
pop_refines p b [] c = hc_pop_quiet_empty p b c
pop_refines p b (x ∷ rest) c = (
  popped p b,
  hc_pop_quiet p b (λ e. c.1 (sym c.0 ∙ e)) ∙ ap (λ (i : ℕ). some (i, popped p b)) c.0,
  Holds-popped p b x rest c,
)
