-- ===== src/Host/Serve.antt =====
-- What the listener does with one packet: whether it answers it, forwards it or passes it over.
use async_gpu.Prelude.{
  ℕ, ◌+◌, ◌≡◌, ◌≢◌, refl, sym, ap, ◌∙◌, ◌==◌, if◌then◌else◌, Bool, ◌||◌, List, [], ◌∷◌, ◌++◌,
  Option, none, some, ◌>>=◌, has_bit, Bool-cases, inl, inr, update_self, update_ne, append-nil,
}
use async_gpu.Protocol.Services.{
  control_ready, control_error, control_filled, service_nop, service_print, service_time,
  service_panic, service_trace, service_bulk_print,
}
use async_gpu.Hostcall.Buffer.{Packet, Buffer, StackPtr, load, with_packet, load-with_packet}
use async_gpu.Host.Os.{Os}
use async_gpu.Host.Resources.{Sideband}
use async_gpu.Host.Console.{
  Shown, handle_time, handle_print, handle_panic, handle_trace, handle_bulk_print,
}
use async_gpu.Host.Frames.{bulk_print_ends}
use async_gpu.Host.IoThread.{IoRequest, answer_flags}
use async_gpu.Host.Listener.{
  Listener, blocks, answer, show, send, tell_time, dispatch, serve_packet,
}

-- The services that the listener runs itself.
abbrev pub inline : ℕ → Bool
inline service =
    (service == service_nop)
    || (service == service_print)
    || (service == service_time)
    || (service == service_panic)
    || (service == service_trace)
    || (service == service_bulk_print)

-- The control word after the dispatch of a service, and the request that goes to the I/O thread.
abbrev pub control_after : ℕ → ℕ → ℕ
control_after service old =
    if inline service
    then control_ready
    else if blocks service
    then old
    else control_ready + control_error

abbrev pub forwarded_by : ℕ → ℕ → List IoRequest
forwarded_by idx service =
    if inline service
    then []
    else if blocks service
    then record { pkt_idx = idx; service = service } ∷ []
    else []

-- The same for a packet, which is passed over if it is not filled.
abbrev pub control_served : Packet → ℕ
control_served pkt =
    if has_bit pkt.control control_filled
    then control_after pkt.service pkt.control
    else pkt.control

abbrev pub forwarded : ℕ → Packet → List IoRequest
forwarded idx pkt = if has_bit pkt.control control_filled then forwarded_by idx pkt.service else []

-- What is shown for a service: one line for a print, a panic and a trace, and the messages of a bulk
-- print, as the handlers give them.
abbrev pub shown_by : {W Handle : Type 0} → Os W Handle → Sideband → ℕ → (ℕ → ℕ) → List Shown
shown_by sys sideband service payload =
    if service == service_nop
    then []
    else if service == service_print
    then handle_print sys payload ∷ []
    else if service == service_time
    then []
    else if service == service_panic
    then handle_panic sys payload ∷ []
    else if service == service_trace
    then handle_trace sys payload ∷ []
    else if service == service_bulk_print
    then elim (handle_bulk_print sys sideband payload) [ none ↦ [] | some lines ↦ lines ]
    else []

abbrev pub shown_for : {W Handle : Type 0} → Os W Handle → Sideband → Packet → List Shown
shown_for sys sideband pkt =
    if has_bit pkt.control control_filled then shown_by sys sideband pkt.service pkt.payload else []

-- Packet `idx` has got this control word and kept the rest of its header, other packets and the
-- stacks are as they were, and these requests have been sent and these lines shown.
pub record Serves {W : Type 0} (idx control : ℕ) (reqs : List IoRequest) (lines : List Shown)
    (l l' : Listener W) : Type 0 where
  pub control_is : (l'.buffer.packets idx).control ≡ control
  pub service_kept : (l'.buffer.packets idx).service ≡ (l.buffer.packets idx).service
  pub next_kept : (l'.buffer.packets idx).next ≡ (l.buffer.packets idx).next
  pub others_kept : (j : ℕ) → idx ≢ j → l'.buffer.packets j ≡ l.buffer.packets j
  pub stacks_kept : (p : StackPtr) → load p l'.buffer ≡ load p l.buffer
  pub sent_is : l'.sent ≡ l.sent ++ reqs
  pub shown_is : l'.shown ≡ l.shown ++ lines
  pub sideband_kept : l'.sideband ≡ l.sideband

module _ {W : Type 0} where
  -- A store to fields other than the links and the service.
  stored-Serves :
      (idx : ℕ) (f : Packet → Packet) (lines : List Shown) (l l' : Listener W)
      → l'.buffer ≡ with_packet idx f l.buffer
      → l'.sent ≡ l.sent
      → l'.shown ≡ l.shown ++ lines
      → l'.sideband ≡ l.sideband
      → ((pkt : Packet) → ((f pkt).service ≡ pkt.service) × ((f pkt).next ≡ pkt.next))
      → Serves idx (f (l.buffer.packets idx)).control [] lines l l'
  stored-Serves idx f lines l l' e s shown sideband k =
      let at = ap (λ (b : Buffer). b.packets idx) e ∙ update_self l.buffer.packets idx _ in
      record {
        control_is = ap (λ (pkt : Packet). pkt.control) at;
        service_kept = ap (λ (pkt : Packet). pkt.service) at ∙ (k (l.buffer.packets idx)).0;
        next_kept = ap (λ (pkt : Packet). pkt.next) at ∙ (k (l.buffer.packets idx)).1;
        others_kept =
            λ j ne. ap (λ (b : Buffer). b.packets j) e ∙ update_ne l.buffer.packets idx j _ ne;
        stacks_kept = λ p. ap (load p) e ∙ load-with_packet p idx f l.buffer;
        sent_is = s ∙ sym (append-nil l.sent);
        shown_is = shown;
        sideband_kept = sideband;
      }

  answer-Serves :
      (idx flags : ℕ) (lines : List Shown) (l : Listener W)
      → Serves idx flags [] lines l (answer idx flags (show lines l))
  unfolding answer show
  answer-Serves idx flags lines l =
      stored-Serves idx (λ pkt. record pkt { control = flags }) lines l _ refl refl refl refl
        (λ pkt. (refl, refl))

  answer_lem : (idx flags : ℕ) (l : Listener W) → Serves idx flags [] [] l (answer idx flags l)
  unfolding answer
  answer_lem idx flags l =
      stored-Serves idx (λ pkt. record pkt { control = flags }) [] l _ refl refl
        (sym (append-nil l.shown)) refl (λ pkt. (refl, refl))

  -- Nothing is stored: the packet is passed over, or sent on.
  kept-Serves :
      (idx : ℕ) (reqs : List IoRequest) (l l' : Listener W)
      → l'.buffer ≡ l.buffer
      → l'.sent ≡ l.sent ++ reqs
      → l'.shown ≡ l.shown
      → l'.sideband ≡ l.sideband
      → Serves idx (l.buffer.packets idx).control reqs [] l l'
  kept-Serves idx reqs l l' e s shown sideband = record {
    control_is = ap (λ (b : Buffer). (b.packets idx).control) e;
    service_kept = ap (λ (b : Buffer). (b.packets idx).service) e;
    next_kept = ap (λ (b : Buffer). (b.packets idx).next) e;
    others_kept = λ j ne. ap (λ (b : Buffer). b.packets j) e;
    stacks_kept = λ p. ap (load p) e;
    sent_is = s;
    shown_is = shown ∙ sym (append-nil l.shown);
    sideband_kept = sideband;
  }

  after-Serves :
      (idx control control' : ℕ) (reqs : List IoRequest) (l l' l'' : Listener W)
      → Serves idx control reqs [] l l'
      → Serves idx control' [] [] l' l''
      → Serves idx control' reqs [] l l''
  after-Serves idx control control' reqs l l' l'' s t = record {
    control_is = t.control_is;
    service_kept = t.service_kept ∙ s.service_kept;
    next_kept = t.next_kept ∙ s.next_kept;
    others_kept = λ j ne. t.others_kept j ne ∙ s.others_kept j ne;
    stacks_kept = λ p. t.stacks_kept p ∙ s.stacks_kept p;
    sent_is = t.sent_is ∙ append-nil l'.sent ∙ s.sent_is;
    shown_is = t.shown_is ∙ append-nil l'.shown ∙ s.shown_is;
    sideband_kept = t.sideband_kept ∙ s.sideband_kept;
  }

module _ {W Handle : Type 0} (sys : Os W Handle) where
  tell_time-Serves :
      (idx : ℕ) (l : Listener W) → Serves idx control_ready [] [] l (tell_time sys idx l)
  unfolding tell_time handle_time answer_flags
  tell_time-Serves idx l =
      let r = handle_time sys l.os (l.buffer.packets idx).payload in
      let l' = record l {
        buffer = with_packet idx (λ pkt. record pkt { payload = r.1 }) l.buffer;
        os = r.2;
      } in
      after-Serves idx _ control_ready [] l l' (tell_time sys idx l)
        (stored-Serves idx (λ pkt. record pkt { payload = r.1 }) [] l l' refl refl
          (sym (append-nil l.shown)) refl (λ pkt. (refl, refl)))
        (answer_lem idx control_ready l')

  bulk-Serves :
      (idx : ℕ) (l : Listener W) (o : Option (List Shown))
      → o ≢ none
      → (l' : Listener W) × ((o >>= λ lines. some (answer idx control_ready (show lines l)))
          ≡ some l')
        × Serves idx control_ready [] (elim o [ none ↦ [] | some lines ↦ lines ]) l l'
  bulk-Serves idx l none h = absurd (h refl)
  bulk-Serves idx l (some lines) h = (_, refl, answer-Serves idx control_ready lines l)

  -- The listener serves any packet of the given service.
  dispatch-Serves :
      (idx service : ℕ) (l : Listener W)
      → (l' : Listener W) × (dispatch sys idx service l ≡ some l')
        × Serves idx
            (control_after service (l.buffer.packets idx).control)
            (forwarded_by idx service)
            (shown_by sys l.sideband service (l.buffer.packets idx).payload)
            l
            l'
  unfolding dispatch send answer_flags
  dispatch-Serves idx service l = elim (Bool-cases (service == service_nop)) [
    | inl e ↦ rw e (_, refl, answer_lem idx control_ready l)
    | inr e ↦ rw e (elim (Bool-cases (service == service_print)) [
      | inl e ↦ rw e (_, refl, answer-Serves idx control_ready _ l)
      | inr e ↦ rw e (elim (Bool-cases (service == service_time)) [
        | inl e ↦ rw e (_, refl, tell_time-Serves idx l)
        | inr e ↦ rw e (elim (Bool-cases (service == service_panic)) [
          | inl e ↦ rw e (_, refl, answer-Serves idx control_ready _ l)
          | inr e ↦ rw e (elim (Bool-cases (service == service_trace)) [
            | inl e ↦ rw e (_, refl, answer-Serves idx control_ready _ l)
            | inr e ↦ rw e (elim (Bool-cases (service == service_bulk_print)) [
              | inl e ↦ rw e (bulk-Serves idx l _ (bulk_print_ends sys l.sideband _))
              | inr e ↦ rw e (elim (Bool-cases (blocks service)) [
                | inl e ↦ rw e (_, refl, kept-Serves idx _ l _ refl refl refl refl)
                | inr e ↦ rw e (_, refl, answer_lem idx _ l)
              ])
            ])
          ])
        ])
      ])
    ])
  ]

  -- A packet of the walk, filled or not.
  pub serve_packet-Serves :
      (idx : ℕ) (l : Listener W)
      → let pkt = l.buffer.packets idx in
        (l' : Listener W) × (serve_packet sys idx l ≡ some l')
        × Serves idx (control_served pkt) (forwarded idx pkt) (shown_for sys l.sideband pkt) l l'
  unfolding serve_packet
  serve_packet-Serves idx l =
      elim (Bool-cases (has_bit (l.buffer.packets idx).control control_filled)) [
        | inl e ↦ rw e (dispatch-Serves idx (l.buffer.packets idx).service l)
        | inr e ↦ rw e (l, refl, kept-Serves idx [] l l refl (sym (append-nil l.sent)) refl refl)
      ]
