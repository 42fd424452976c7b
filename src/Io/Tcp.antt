-- ===== src/Io/Tcp.antt =====
-- src/io/tcp.cc: `tcp_conn_t`, its read buffer and the calls that read. The socket is a parameter: what it
-- still brings, and `recv`, the system call `::read` under `eintr_wrap` where it does not fail; it gives
-- nothing when nothing more comes.
pub mod Reads
pub mod Until
pub mod Peek
pub mod Ends
pub mod Returns
use indecorous.Base.{
  ℕ, zero, suc, ◌+◌, ◌-◌, ◌*◌, ◌/◌, ◌≤◌, ◌<◌, min, ◌≡◌, Bool, true, false, Option, none, some, List,
  [], ◌∷◌, ◌++◌, length, take, drop, Result, ok, err, undefined, assert, ◌>>=◌, ◌>>◌, ◌==◌, ltb,
  if◌then◌else◌,
}

-- A socket: `bytes` are those that will come. A call takes some of them, from the front, at least one if
-- there is one, and never more than it asks for.
pub record Socket (S : Type 0) : Type 0 where
  pub recv : ℕ → S → List ℕ × S
  pub bytes : S → List ℕ
  pub recv-bytes : (n : ℕ) (s : S) → (recv n s).0 ++ bytes (recv n s).1 ≡ bytes s
  pub length-recv : (n : ℕ) (s : S) → length (recv n s).0 ≤ n
  pub recv-some : (n : ℕ) (s : S) → 0 < n → 0 < length (bytes s) → 0 < length (recv n s).0

-- `s_read_buffer_size`
abbrev pub read_buffer_size : ℕ
read_buffer_size = 65536

-- `m_read_buffer`, `m_read_buffer_offset`, and the socket
pub record Conn (S : Type 0) : Type 0 where
  pub buffer : List ℕ
  pub offset : ℕ
  pub socket : S

-- The loop of `read`: what is still to be read, what the caller's buffer has been given, and the connection
pub record Loop (S : Type 0) : Type 0 where
  pub count : ℕ
  pub out : List ℕ
  pub conn : Conn S

module _ {S : Type 0} (k : Socket S) where
  -- `tcp_conn_t(scoped_fd_t)`
  unfoldable pub create : S → Conn S
  create socket = record { buffer = []; offset = 0; socket = socket }

  -- The loop in `read_into_buffer`, with at most `fuel` rounds more: `none` is one that goes on.
  abbrev pub recv_some : ℕ → S → Option (List ℕ × S)
  recv_some zero s =
      let got = k.recv read_buffer_size s in if length got.0 == 0 then none else some got
  recv_some (suc fuel) s =
      let got = k.recv read_buffer_size s in
      let rest = recv_some fuel got.1 in if length got.0 == 0 then rest else some got

  abbrev pub filled : Option (List ℕ × S) → Option (Conn S)
  filled none = none
  filled (some got) = some (record { buffer = got.0; offset = 0; socket = got.1 })

  -- `read_into_buffer`
  unfoldable pub read_into_buffer : ℕ → Conn S → Result (Option (Conn S))
  read_into_buffer fuel c = do
    assert (c.offset == length c.buffer)
    ok (filled (recv_some fuel c.socket))

  abbrev pub refilled : ℕ → List ℕ → Option (Conn S) → Option (Loop S)
  refilled count out none = none
  refilled count out (some c) = some (record { count = count; out = out; conn = c })

  -- One round of the loop of `read`: the bytes in the buffer are copied; if there are too few, more are
  -- received, many into the caller's buffer and few into the own one.
  abbrev pub round : ℕ → Loop S → Result (Option (Loop S))
  round fuel l =
      let n = min l.count (length l.conn.buffer - l.conn.offset) in
      let copied = take n (drop l.conn.offset l.conn.buffer) in
      let next = record l.conn { offset = l.conn.offset + n } in
      let left = l.count - n in
      let got = k.recv left l.conn.socket in
      if left == 0
      then ok (some (record { count = 0; out = l.out ++ copied; conn = next }))
      else if ltb (read_buffer_size / 2) left
      then ok (
          some (record {
            count = left - length got.0;
            out = (l.out ++ copied) ++ got.0;
            conn = record next { socket = got.1 };
          }))
      else (do full ← read_into_buffer fuel next; ok (refilled left (l.out ++ copied) full))

  abbrev pub go_on :
      (Loop S → Result (Option (Loop S))) → Option (Loop S) → Result (Option (Loop S))
  go_on again none = ok none
  go_on again (some l) = again l

  -- The loop of `read`, with at most `fuel` rounds, and as many of that in `read_into_buffer`: `none` is a
  -- loop that goes on.
  unfoldable pub read_loop : ℕ → Loop S → Result (Option (Loop S))
  read_loop zero l = ok (if l.count == 0 then some l else none)
  read_loop (suc fuel) l =
      if l.count == 0 then ok (some l) else (round fuel l >>= go_on (read_loop fuel))

  -- `read`
  unfoldable pub read : ℕ → ℕ → Conn S → Result (Option (Loop S))
  read fuel count c = read_loop fuel (record { count = count; out = []; conn = c })
