-- ===== src/Hostcall/Returns.antt =====
-- That a request returns, and what.
use async_gpu.Prelude.{
  ℕ, ◌≡◌, ◌≢◌, refl, sym, true, false, ◌==◌, ==_iff, ==→ne, ◌∷◌, ◌++◌, ◌⊎◌, Option, none, some,
  ◌>>=◌, Bool-cases, Option-cases, inl, inr, has_bit, read_u64, of-Ensures,
}
use async_gpu.Protocol.Services.{control_ready, control_error}
use async_gpu.Protocol.Tagged.{null_index}
use async_gpu.Protocol.Errors.{from_encoded, pool_exhausted, timeout}
use async_gpu.Hostcall.Buffer.{Buffer, StackPtr}
use async_gpu.Hostcall.Stack.{Schedule, hc_pop_free_from, hc_push_with, gpu_hostcall_release}
use async_gpu.Hostcall.Progress.{pop_ends, push_ends}
use async_gpu.Hostcall.Request.{
  Outcome, ok, err, World, Waited, answered, gave_up, finish, submit_and_wait,
  gpu_hostcall_request_with_timeout,
}
use async_gpu.Hostcall.Outcomes.{Ready, free_of, ready_of, submit-Ready}

-- A schedule in which some round is not overtaken.
abbrev pub Ends : Schedule → Type 0
Ends s = (before after : Schedule) × (s ≡ before ++ (λ c. c) ∷ after)

pub >>=-ne_none :
    {A B : Type 0} (m : Option A) (f : A → Option B)
    → m ≢ none
    → ((a : A) → f a ≢ none)
    → (m >>= f) ≢ none
>>=-ne_none none f h k e = h refl
>>=-ne_none (some a) f h k e = k a e

pop-Ends : (s : Schedule) (p : StackPtr) (b : Buffer) → Ends s → hc_pop_free_from s p b ≢ none
pop-Ends s p b (before, after, e) = rw e (pop_ends before after p b)

push-Ends :
    (s : Schedule) (p : StackPtr) (i : ℕ) (b : Buffer) → Ends s → hc_push_with s p i b ≢ none
push-Ends s p i b (before, after, e) = rw e (push_ends before after p i b)

pub release-Ends :
    (s : Schedule) (block offset : ℕ) (b : Buffer)
    → Ends s
    → gpu_hostcall_release s block offset b ≢ none
unfolding gpu_hostcall_release
release-Ends s block offset b ends = push-Ends s _ _ b ends

pub some_ne : {A : Type 0} (a : A) → ◌≢◌ {A = Option A} (some a) none
some_ne a e = cc

submit-returns :
    (w : World) (p : StackPtr) (service max_spin : ℕ) (fill : (ℕ → ℕ) → ℕ → ℕ) (i : ℕ) (b : Buffer)
    → Ends w.submit
    → submit_and_wait w p service fill max_spin i b ≢ none
unfolding submit_and_wait
submit-returns w p service max_spin fill i b s =
    >>=-ne_none (hc_push_with w.submit p i _) _ (push-Ends w.submit p i _ s) (λ b'. some_ne _)

-- How a request ends that has waited for packet `idx`. An answer has the ready bit in its control
-- word. Without the error bit the request succeeds with that packet, and the buffer is left as the
-- answer was found; with it the request fails with the error that slot 0 of the answer encodes, and
-- the packet is pushed back. So it is on a timeout.
abbrev pub Ended : World → StackPtr → ℕ → Waited → Outcome ℕ × Buffer → Type 0
Ended w free_ptr idx (answered ctrl c) (o, b') =
    (ctrl ≡ (c.packets idx).control)
    × (has_bit ctrl control_ready ≡ true)
    × (((has_bit ctrl control_error ≡ false) × (o ≡ ok idx) × (b' ≡ c))
        ⊎ ((has_bit ctrl control_error ≡ true)
            × (o ≡ err (from_encoded (read_u64 (c.packets idx).payload 0)))
            × (hc_push_with w.release free_ptr idx c ≡ some b')))
Ended w free_ptr idx (gave_up c) (o, b') =
    (o ≡ err timeout) × (hc_push_with w.release free_ptr idx c ≡ some b')

-- How the whole request ends, by what its own pop and its own wait came to.
abbrev pub Returned : World → ℕ → ℕ → ((ℕ → ℕ) → ℕ → ℕ) → Buffer → Outcome ℕ × Buffer → Type 0
Returned w service max_spin fill b r =
    (idx : ℕ) × (b₁ : Buffer) × (hc_pop_free_from w.pop (free_of w b) b ≡ some (idx, b₁))
    × (((idx ≡ null_index) × (r ≡ (err pool_exhausted, b₁)))
        ⊎ ((idx ≢ null_index)
            × (waited : Waited) × (submit_and_wait w (ready_of w b) service fill max_spin idx b₁
                ≡ some waited)
            × Ended w (free_of w b) idx waited r))

finish-Ended :
    (w : World) (p : StackPtr) (idx : ℕ) (waited : Waited)
    → Ends w.release
    → Ready idx waited
    → (r : Outcome ℕ × Buffer) × (finish w p idx waited ≡ some r) × Ended w p idx waited r
unfolding finish
finish-Ended w p idx (gave_up c) release ready =
    elim (Option-cases (hc_push_with w.release p idx c)) [
      | inl e ↦ absurd (push-Ends w.release p idx c release e)
      | inr (b', e) ↦ ((err timeout, b'), rw e refl, (refl, e))
    ]
finish-Ended w p idx (answered ctrl c) release (same, bit) =
    elim (Bool-cases (has_bit ctrl control_error)) [
      | inr good ↦ ((ok idx, c), rw good refl, (sym same, bit, inl (good, refl, refl)))
      | inl bad ↦ elim (Option-cases (hc_push_with w.release p idx c)) [
        | inl e ↦ absurd (push-Ends w.release p idx c release e)
        | inr (b', e) ↦ (
          (err (from_encoded (read_u64 (c.packets idx).payload 0)), b'),
          rw (bad, e) refl,
          (sym same, bit, inr (bad, refl, e)),
        )
      ]
    ]

-- If some round of the pop and of each of the two pushes is not overtaken, a request returns,
-- whatever the host and the other threads do otherwise. Its pop has given a packet or NULL_INDEX. On
-- NULL_INDEX it returns `pool_exhausted` and the buffer that the pop left. Else it has waited for that
-- very packet, and returns as the wait for it ended.
pub request_returns_outcome :
    (w : World) (service max_spin : ℕ) (fill : (ℕ → ℕ) → ℕ → ℕ) (b : Buffer)
    → Ends w.pop
    → Ends w.submit
    → Ends w.release
    → (r : Outcome ℕ × Buffer) × (gpu_hostcall_request_with_timeout w service max_spin fill b
        ≡ some r)
      × Returned w service max_spin fill b r
unfolding gpu_hostcall_request_with_timeout
request_returns_outcome w service max_spin fill b p s q =
    elim (Option-cases (hc_pop_free_from w.pop (free_of w b) b)) [
      | inl e ↦ absurd (pop-Ends w.pop (free_of w b) b p e)
      | inr ((idx, b₁), popped) ↦ elim (Bool-cases (idx == null_index)) [
        | inl none_left ↦ (
          (err pool_exhausted, b₁),
          rw (popped, none_left) refl,
          (idx, b₁, popped, inl ((==_iff idx null_index).0 none_left, refl)),
        )
        | inr got ↦
            elim (Option-cases (submit_and_wait w (ready_of w b) service fill max_spin idx b₁)) [
              | inl e ↦ absurd (submit-returns w (ready_of w b) service max_spin fill idx b₁ s e)
              | inr (waited, sent) ↦
                  let ready =
                    of-Ensures (Ready idx) _
                      (submit-Ready w (ready_of w b) service max_spin fill idx b₁) sent in
                  let (r, ended, how) = finish-Ended w (free_of w b) idx waited q ready in
                  (
                    r,
                    rw (popped, got, sent) ended,
                    (idx, b₁, popped, inr (==→ne idx null_index got, waited, sent, how)),
                  )
            ]
      ]
    ]
