-- ===== src/Host/Handlers.antt =====
-- What every handler of the I/O thread keeps to: descriptors are given in order and once, and a
-- failure leaves an error of the host in slot 0.
use async_gpu.Prelude.{
  ℕ, ◌+◌, ◌^◌, ◌<◌, ◌≤◌, ◌≡◌, ◌≢◌, refl, ap, ◌∙◌, ◌⊎◌, inl, inr, if◌then◌else◌, Bool, true, false,
  ◌||◌, List, Option, none, some, arith, update_ne, write_u64, read_u64, read_u64-write_u64,
}
use async_gpu.Protocol.Errors.{
  encode_error, error_category, err_invalid_input, err_invalid_fd, err_resource_busy,
  err_host_timeout,
}
use async_gpu.Host.Os.{
  Os, IoError, IoResult, ok, err, ErrorKind, io_error_to_category, raw_errno_of,
  write_error_response,
}
use async_gpu.Host.Resources.{
  FdResource, Io, Answer, Found, wanted, other_kind, missing, refuse, fail, succeed, with_found,
  register, wrote, drop_resource, got,
}

-- The descriptors after a handler: `next_fd` stays or goes up by one, and no free descriptor is
-- taken but the next one.
pub record Step {W Handle S : Type 0} (io io' : Io W Handle S) : Type 0 where
  pub next_stays : (io'.next_fd ≡ io.next_fd) ⊎ (io'.next_fd ≡ io.next_fd + 1)
  pub free_stays :
      (fd : ℕ)
      → io.fd_table fd ≡ none
      → (fd ≢ io.next_fd) ⊎ (io'.next_fd ≡ io.next_fd)
      → io'.fd_table fd ≡ none

-- Slot 0 has a category of the host, none of the two that the GPU itself gives.
abbrev pub IsHostError : ℕ → Type 0
IsHostError slot0 =
    (error_category slot0 ≤ 21)
    × (error_category slot0 ≢ err_resource_busy)
    × (error_category slot0 ≢ err_host_timeout)

pub record Fine {W Handle S : Type 0} (io : Io W Handle S) (a : Answer W Handle S) : Type 0 where
  pub step : Step io a.io
  pub reports : a.has_error ≡ true → IsHostError (read_u64 a.payload 0)

raw_errno_of-lt : (o : Option ℕ) → raw_errno_of o < 2 ^ 16
unfolding raw_errno_of
raw_errno_of-lt none = omega arith
raw_errno_of-lt (some n) = omega arith

abbrev IsHostCategory : ℕ → Type 0
IsHostCategory c = (c ≤ 21) × (c ≢ err_resource_busy) × (c ≢ err_host_timeout)

category_lem : (k : ErrorKind) → IsHostCategory (io_error_to_category k)
unfolding io_error_to_category
category_lem ErrorKind.not_found = omega arith
category_lem ErrorKind.permission_denied = omega arith
category_lem ErrorKind.already_exists = omega arith
category_lem ErrorKind.invalid_input = omega arith
category_lem ErrorKind.timed_out = omega arith
category_lem ErrorKind.would_block = omega arith
category_lem ErrorKind.broken_pipe = omega arith
category_lem ErrorKind.out_of_memory = omega arith
category_lem ErrorKind.unsupported = omega arith
category_lem ErrorKind.connection_refused = omega arith
category_lem ErrorKind.connection_reset = omega arith
category_lem ErrorKind.addr_in_use = omega arith
category_lem ErrorKind.addr_not_available = omega arith
category_lem ErrorKind.not_connected = omega arith
category_lem ErrorKind.other = omega arith

encode_error-lt : (c e : ℕ) → c < 2 ^ 16 → e < 2 ^ 16 → encode_error c e < 2 ^ 64
unfolding encode_error
encode_error-lt c e h k = omega arith

error_category-encode_error : (c e : ℕ) → c < 2 ^ 16 → error_category (encode_error c e) ≡ c
unfolding error_category encode_error
error_category-encode_error c e h = omega arith

encoded-IsHostError :
    (payload : ℕ → ℕ) (c e : ℕ)
    → IsHostCategory c
    → e < 2 ^ 16
    → IsHostError (read_u64 (write_u64 payload 0 (encode_error c e)) 0)
encoded-IsHostError payload c e h k =
    rw
      (
        read_u64-write_u64 payload 0 (encode_error c e) (encode_error-lt c e (omega arith) k),
        error_category-encode_error c e (omega arith),
      )
      h

module _ {W Handle S : Type 0} where
  same_descriptors :
      (io io' : Io W Handle S) → io'.fd_table ≡ io.fd_table → io'.next_fd ≡ io.next_fd → Step io io'
  same_descriptors io io' e f = record {
    next_stays = inl f;
    free_stays = λ fd h _. ap (λ (t : ℕ → Option (FdResource Handle)). t fd) e ∙ h;
  }

  pub if-Fine :
      (io : Io W Handle S) (b : Bool) (x y : Answer W Handle S)
      → Fine io x
      → Fine io y
      → Fine io (if b then x else y)
  if-Fine io true x y h k = h
  if-Fine io false x y h k = k

  -- A match on the service, of one that is among those tested.
  pub match-Fine :
      (io : Io W Handle S) (b rest : Bool) {x y : Answer W Handle S}
      → Fine io x
      → (rest ≡ true → Fine io y)
      → (b || rest) ≡ true
      → Fine io (if b then x else y)
  match-Fine io true rest h k known = h
  match-Fine io false rest h k known = k known

  -- A success that opens and closes nothing.
  pub success-Fine :
      (io : Io W Handle S) (a : Answer W Handle S)
      → a.has_error ≡ false
      → a.io.fd_table ≡ io.fd_table
      → a.io.next_fd ≡ io.next_fd
      → Fine io a
  success-Fine io a e f g = record { step = same_descriptors io a.io f g; reports = λ h. cc }

  pub refuse-Fine :
      (io : Io W Handle S) (payload : ℕ → ℕ) (c : ℕ)
      → (c ≡ err_invalid_input) ⊎ (c ≡ err_invalid_fd)
      → Fine io (refuse c payload io)
  unfolding refuse
  refuse-Fine io payload c h = record {
    step = same_descriptors io io refl refl;
    reports = λ _. encoded-IsHostError payload c 0 (omega arith) (omega arith);
  }

  -- An error of the system, after a change of the sideband at most.
  pub fail-Fine :
      (io io' : Io W Handle S) (e : IoError) (payload : ℕ → ℕ) (w : W)
      → io'.fd_table ≡ io.fd_table
      → io'.next_fd ≡ io.next_fd
      → Fine io (fail e payload io' w)
  unfolding fail write_error_response
  fail-Fine io io' e payload w f g = record {
    step = same_descriptors io (record io' { os = w }) f g;
    reports = λ _.
        encoded-IsHostError payload (io_error_to_category e.kind) (raw_errno_of e.raw_os_error)
          (category_lem e.kind) (raw_errno_of-lt e.raw_os_error);
  }

  pub with_found-Fine :
      (found : Found Handle) (payload : ℕ → ℕ) (io : Io W Handle S)
      (use_it : Handle → Answer W Handle S)
      → ((h : Handle) → Fine io (use_it h))
      → Fine io (with_found found payload io use_it)
  unfolding with_found
  with_found-Fine (wanted h) payload io use_it k = k h
  with_found-Fine other_kind payload io use_it k = refuse-Fine io payload _ (inl refl)
  with_found-Fine missing payload io use_it k = refuse-Fine io payload _ (inr refl)

  pub register-Fine :
      (mk : Handle → FdResource Handle) (payload : ℕ → ℕ) (io : Io W Handle S) (r : IoResult Handle)
      (w : W)
      → io.next_fd + 1 < 2 ^ 64
      → Fine io (register mk payload io r w)
  unfolding register
  register-Fine mk payload io (err e) w k = fail-Fine io io e payload w refl refl
  register-Fine mk payload io (ok h) w k = record {
    step = record {
      next_stays = inr (omega arith);
      free_stays = λ fd free which. update_ne io.fd_table io.next_fd fd _ (ground arith) ∙ free;
    };
    reports = λ e. cc;
  }

  pub wrote-Fine :
      (sys : Os W Handle) (h : Handle) (payload : ℕ → ℕ) (io : Io W Handle S) (r : IoResult ℕ)
      (w : W)
      → Fine io (wrote sys h payload io r w)
  unfolding wrote succeed
  wrote-Fine sys h payload io (err e) w = fail-Fine io io e payload w refl refl
  wrote-Fine sys h payload io (ok n) w = success-Fine io _ refl refl refl

  pub got-Fine :
      (payload : ℕ → ℕ) (io : Io W Handle S) (r : IoResult ℕ) (buf : List ℕ) (w : W)
      → Fine io (got payload io r buf w)
  unfolding got
  got-Fine payload io (err e) buf w = fail-Fine io io e payload w refl refl
  got-Fine payload io (ok n) buf w = success-Fine io _ refl refl refl

  pub drop_resource-Fine :
      (sys : Os W Handle) (fd : ℕ) (payload : ℕ → ℕ) (io : Io W Handle S)
      (r : Option (FdResource Handle))
      → Fine io (drop_resource sys fd payload io r)
  unfolding drop_resource succeed
  drop_resource-Fine sys fd payload io none = refuse-Fine io payload _ (inr refl)
  drop_resource-Fine sys fd payload io (some r) = record {
    step = record { next_stays = inl refl; free_stays = λ j free _. ground arith };
    reports = λ e. cc;
  }
