-- ===== src/Host/Descriptors.antt =====
-- The descriptors and the error answers of the I/O thread, over all its services and over its loop.
use async_gpu.Prelude.{
  ℕ, ◌+◌, ◌^◌, ◌<◌, ◌≤◌, ◌≡◌, refl, inl, ◌==◌, true, List, Option, none, some, arith, write_from,
}
use async_gpu.Protocol.Services.{
  service_open, service_write, service_read, service_close, service_stdin, service_bulk_write,
  service_bulk_read, service_tcp_connect, service_tcp_write, service_tcp_read, service_tcp_close,
  service_tcp_bind, service_tcp_accept, service_tcp_bulk_write, service_tcp_bulk_read,
}
use async_gpu.Host.Os.{Os, IoResult, ok, err}
use async_gpu.Host.Stdin.{StdinSource}
use async_gpu.Host.Resources.{
  FdResource, file, tcp_stream, tcp_listener, Io, Found, find_file, find_stream,
  invalid_input_error,
}
use async_gpu.Host.Files.{
  opened, handle_open, handle_write, handle_read, handle_close, handle_stdin_from_source,
}
use async_gpu.Host.Sockets.{
  connect_to, bind_to, handle_tcp_connect, handle_tcp_bind, handle_tcp_accept, handle_tcp_write,
  handle_tcp_read, handle_tcp_close,
}
use async_gpu.Host.Bulk.{
  wrote_all, filled, bulk_write_from, bulk_read_into, handle_bulk_write, handle_bulk_read,
  handle_tcp_bulk_write, handle_tcp_bulk_read,
}
use async_gpu.Host.IoThread.{serve_io}
use async_gpu.Host.Listener.{blocks}
use async_gpu.Host.Handlers.{
  match-Fine, Step, Fine, if-Fine, success-Fine, refuse-Fine, fail-Fine, with_found-Fine,
  register-Fine, wrote-Fine, got-Fine, drop_resource-Fine,
}

ruleset fine_rules = (
  if-Fine, refuse-Fine, with_found-Fine, register-Fine, wrote-Fine, got-Fine, drop_resource-Fine,
  inl,
)

module _ {W Handle S : Type 0} (sys : Os W Handle) where
  opened-Fine :
      (payload : ℕ → ℕ) (io : Io W Handle S) (o : Option (IoResult Handle × W))
      → io.next_fd + 1 < 2 ^ 64
      → Fine io (opened sys payload io o)
  unfolding opened
  opened-Fine payload io none k = fail-Fine io io invalid_input_error payload io.os refl refl
  opened-Fine payload io (some (r, w)) k = register-Fine file payload io r w k

  open-Fine :
      (payload : ℕ → ℕ) (io : Io W Handle S)
      → io.next_fd + 1 < 2 ^ 64
      → Fine io (handle_open sys payload io)
  unfolding handle_open
  open-Fine payload io k =
      if-Fine io _ _ _ (opened-Fine payload io _ k)
        (fail-Fine io io invalid_input_error payload io.os refl refl)

  connect_to-Fine :
      (payload : ℕ → ℕ) (io : Io W Handle S) (o : Option (List ℕ × ℕ))
      → io.next_fd + 1 < 2 ^ 64
      → Fine io (connect_to sys payload io o)
  unfolding connect_to
  connect_to-Fine payload io none k = fail-Fine io io invalid_input_error payload io.os refl refl
  connect_to-Fine payload io (some (addr, port)) k = register-Fine tcp_stream payload io _ _ k

  bind_to-Fine :
      (payload : ℕ → ℕ) (io : Io W Handle S) (o : Option (List ℕ × ℕ))
      → io.next_fd + 1 < 2 ^ 64
      → Fine io (bind_to sys payload io o)
  unfolding bind_to
  bind_to-Fine payload io none k = fail-Fine io io invalid_input_error payload io.os refl refl
  bind_to-Fine payload io (some (addr, port)) k = register-Fine tcp_listener payload io _ _ k

  wrote_all-Fine :
      (h : Handle) (len : ℕ) (payload : ℕ → ℕ) (io : Io W Handle S) (r : IoResult (Unit {0}))
      (w : W)
      → Fine io (wrote_all sys h len payload io r w)
  unfolding wrote_all
  wrote_all-Fine h len payload io (err e) w = fail-Fine io io e payload w refl refl
  wrote_all-Fine h len payload io (ok tt) w = success-Fine io _ refl refl refl

  abbrev with_region : ℕ → Io W Handle S → List ℕ → Io W Handle S
  with_region off io buf = record io {
    sideband = record io.sideband { data_region = write_from io.sideband.data_region off buf };
  }

  filled-Fine :
      (off : ℕ) (payload : ℕ → ℕ) (io : Io W Handle S) (r : IoResult ℕ) (buf : List ℕ) (w : W)
      → Fine io (filled sys off payload io r buf w)
  unfolding filled
  filled-Fine off payload io (err e) buf w =
      fail-Fine io (with_region off io buf) e payload w refl refl
  filled-Fine off payload io (ok n) buf w = success-Fine io _ refl refl refl

  bulk_write-Fine :
      (find : Option (FdResource Handle) → Found Handle) (payload : ℕ → ℕ) (io : Io W Handle S)
      → Fine io (bulk_write_from sys find payload io)
  unfolding bulk_write_from
  bulk_write-Fine find payload io = search (fine_rules, wrote_all-Fine)

  bulk_read-Fine :
      (find : Option (FdResource Handle) → Found Handle) (payload : ℕ → ℕ) (io : Io W Handle S)
      → Fine io (bulk_read_into sys find payload io)
  unfolding bulk_read_into
  bulk_read-Fine find payload io = search (fine_rules, filled-Fine)

  stdin-Fine :
      (source : StdinSource W S) (payload : ℕ → ℕ) (io : Io W Handle S)
      → Fine io (handle_stdin_from_source source payload io)
  unfolding handle_stdin_from_source
  stdin-Fine source payload io = success-Fine io _ refl refl refl

module _ {W Handle S : Type 0} (sys : Os W Handle) (source : StdinSource W S) where
  -- Every service of the slow path, while descriptors last.
  pub serve_io-Fine :
      (service : ℕ) (payload : ℕ → ℕ) (io : Io W Handle S)
      → io.next_fd + 1 < 2 ^ 64
      → blocks service ≡ true
      → Fine io (serve_io sys source service payload io)
  unfolding serve_io handle_write handle_read handle_close handle_tcp_connect handle_tcp_bind
      handle_tcp_accept handle_tcp_write handle_tcp_read handle_tcp_close handle_bulk_write
      handle_bulk_read handle_tcp_bulk_write handle_tcp_bulk_read blocks
  serve_io-Fine service payload io k known =
      match-Fine io (service == service_open) _ (open-Fine sys payload io k)
        (λ r.
          match-Fine io (service == service_write) _ (search fine_rules)
            (λ r.
              match-Fine io (service == service_read) _ (search fine_rules)
                (λ r.
                  match-Fine io (service == service_close) _ (search fine_rules)
                    (λ r.
                      match-Fine io (service == service_stdin) _ (stdin-Fine sys source payload io)
                        (λ r.
                          match-Fine io (service == service_bulk_write) _
                            (bulk_write-Fine sys find_file payload io)
                            (λ r.
                              match-Fine io (service == service_bulk_read) _
                                (bulk_read-Fine sys find_file payload io)
                                (λ r.
                                  match-Fine io (service == service_tcp_connect) _
                                    (connect_to-Fine sys payload io _ k)
                                    (λ r.
                                      match-Fine io (service == service_tcp_write) _
                                        (search fine_rules)
                                        (λ r.
                                          match-Fine io (service == service_tcp_read) _
                                            (search fine_rules)
                                            (λ r.
                                              match-Fine io (service == service_tcp_close) _
                                                (search fine_rules)
                                                (λ r.
                                                  match-Fine io (service == service_tcp_bind) _
                                                    (bind_to-Fine sys payload io _ k)
                                                    (λ r.
                                                      match-Fine io (service == service_tcp_accept)
                                                        _ (search fine_rules)
                                                        (λ r.
                                                          match-Fine io
                                                            (service == service_tcp_bulk_write) _
                                                            (bulk_write-Fine sys find_stream payload
                                                            io)
                                                            (λ r.
                                                            match-Fine io
                                                            (service == service_tcp_bulk_read) _
                                                            (bulk_read-Fine sys find_stream payload
                                                            io)
                                                            (λ q. absurd cc) r)
                                                            r)
                                                        r)
                                                    r)
                                                r)
                                            r)
                                        r)
                                    r)
                                r)
                            r)
                        r)
                    r)
                r)
            r)
        known

-- Descriptor 0 is free, as are all from `next_fd` on, which is at most `n`.
pub record WellFormed {W Handle S : Type 0} (n : ℕ) (io : Io W Handle S) : Type 0 where
  pub next_pos : 1 ≤ io.next_fd
  pub next_le : io.next_fd ≤ n
  pub zero_free : io.fd_table 0 ≡ none
  pub above_free : (fd : ℕ) → io.next_fd ≤ fd → io.fd_table fd ≡ none

module _ {W Handle S : Type 0} where
  pub Step-WellFormed :
      (n : ℕ) (io io' : Io W Handle S) → Step io io' → WellFormed n io → WellFormed (n + 1) io'
  Step-WellFormed n io io' s h = record {
    next_pos = ground (arith, h.next_pos, s.next_stays);
    next_le = ground (arith, h.next_le, s.next_stays);
    zero_free = s.free_stays 0 h.zero_free (inl (ground (arith, h.next_pos)));
    above_free = λ fd le.
        s.free_stays fd (h.above_free fd (omega (arith, s.next_stays)))
          (omega (arith, s.next_stays));
  }

  -- A descriptor that was given and is free now stays free.
  pub Step-closed :
      (io io' : Io W Handle S) (fd : ℕ)
      → Step io io'
      → fd < io.next_fd
      → io.fd_table fd ≡ none
      → (fd < io'.next_fd) × (io'.fd_table fd ≡ none)
  Step-closed io io' fd s h free =
      (omega (arith, s.next_stays), s.free_stays fd free (inl (omega arith)))
