-- ===== src/Io/FileCalls.antt =====
-- src/io/file.cc: the loops of `file_callbacks_t::read` and `write`, over the system call that moves the
-- bytes (`preadv` or `pwritev` under `eintr_wrap`), which is a parameter. The file is at a state of `S`.
pub mod Short
use indecorous.Base.{
  ℕ, zero, suc, ◌+◌, ◌-◌, ◌≤◌, ◌<◌, ◌≡◌, Option, none, some, Bool, true, false, ◌==◌, if◌then◌else◌,
}

-- What the system call gives: -1 with `errno`, or the number of bytes it moved.
pub data Moved : Type 0 where
  failed moved : ℕ → Moved

-- What the loop returns: 0, EINVAL, or `errno`.
pub data Outcome : Type 0 where
  done einval : Outcome
  errno : ℕ → Outcome

module _ {S : Type 0} (call : ℕ → ℕ → S → Moved × S) where
  -- The loop of `read` behind a call, with at most `fuel` rounds: `none` is a loop that goes on. `length`
  -- is `iov.iov_len`.
  unfoldable pub read_loop : ℕ → ℕ → ℕ → ℕ → Moved × S → Option (Outcome × S)
  read_loop fuel size offset length (failed e, s) = some (errno e, s)
  read_loop zero size offset length (moved n, s) =
      if n == size then some (done, s) else if n == 0 then some (einval, s) else none
  read_loop (suc fuel) size offset length (moved n, s) =
      if n == size
      then some (done, s)
      else if n == 0
      then some (einval, s)
      else read_loop fuel size (offset + n) (length - n) (call (offset + n) (length - n) s)

  -- `file_callbacks_t::read`
  unfoldable pub read : ℕ → ℕ → ℕ → S → Option (Outcome × S)
  read fuel offset size s = read_loop fuel size offset size (call offset size s)

  -- The loop of `write` behind a call
  unfoldable pub write_loop : ℕ → ℕ → ℕ → ℕ → Moved × S → Option (Outcome × S)
  write_loop fuel size offset length (failed e, s) = some (errno e, s)
  write_loop zero size offset length (moved n, s) = if n == size then some (done, s) else none
  write_loop (suc fuel) size offset length (moved n, s) =
      if n == size
      then some (done, s)
      else write_loop fuel size (offset + n) (length - n) (call (offset + n) (length - n) s)

  -- `file_callbacks_t::write`
  unfoldable pub write : ℕ → ℕ → ℕ → S → Option (Outcome × S)
  write fuel offset size s = write_loop fuel size offset size (call offset size s)
