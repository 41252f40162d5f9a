-- ===== src/Hostcall/Progress.antt =====
-- When the loops of pop and push of Stack end.
use async_gpu.Prelude.{ℕ, ◌≢◌, [], ◌∷◌, ◌++◌, none, arith, wrapping_add}
use async_gpu.Protocol.Tagged.{tagged_tag, make_tagged}
use async_gpu.Hostcall.Buffer.{Buffer, StackPtr, load, sys_cas_u64, store_next, load-with_packet}
use async_gpu.Hostcall.Stack.{Schedule, observe, commit, hc_pop_free_from, hc_push_with}

-- Whatever the other threads do in the first rounds, and in the later ones, a round of
-- `hc_pop_free_from` that is not overtaken ends it.
pub pop_ends :
    (before after : Schedule) (p : StackPtr) (b : Buffer)
    → hc_pop_free_from (before ++ (λ c. c) ∷ after) p b ≢ none
unfolding hc_pop_free_from commit sys_cas_u64 observe
pop_ends [] after p b = ground arith
pop_ends (others ∷ before) after p b =
    ground (arith, pop_ends before after p (commit p (observe p b) (others b)).1)

-- Likewise a round of `hc_push_with` that is not overtaken ends it.
pub push_ends :
    (before after : Schedule) (p : StackPtr) (i : ℕ) (b : Buffer)
    → hc_push_with (before ++ (λ c. c) ∷ after) p i b ≢ none
unfolding hc_push_with sys_cas_u64 store_next
push_ends [] after p i b =
    ground (arith, load-with_packet p i (λ pkt. record pkt { next = load p b }) b)
push_ends (others ∷ before) after p i b =
    let old_head : ℕ = load p b in
    let new_tagged : ℕ = make_tagged (wrapping_add (tagged_tag old_head) 1) i in
    let c = (sys_cas_u64 p old_head new_tagged (others (store_next i old_head b))).1 in
    ground (arith, push_ends before after p i c)
