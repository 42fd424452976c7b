-- ===== src/Io/Tcp/Ends.antt =====
-- src/io/tcp.cc: `tcp_conn_t::write`, and what `read` does when the peer sends nothing more.
use indecorous.Base.{
  ℕ, zero, suc, ◌+◌, ◌-◌, ◌/◌, ◌≤◌, ◌<◌, min, ◌≡◌, refl, ap, ◌∙◌, sym, true, false, Option, none,
  some, List, [], ◌∷◌, ◌++◌, append_assoc, append-nil, length, take, drop, take-drop, length-drop,
  ok, ◌==◌, ltb, if◌then◌else◌, arith,
}
use indecorous.Io.Tcp.{Socket, Conn, read_buffer_size, recv_some, read_into_buffer, read_loop, read}

-- The other side of a socket: `sent` are the bytes that it has been given. A call of `::write` under
-- `eintr_wrap`, where it does not fail, takes bytes from the front, at least one if there is one.
pub record Sink (S : Type 0) : Type 0 where
  pub send : List ℕ → S → ℕ × S
  pub sent : S → List ℕ
  pub sent-send :
      (bytes : List ℕ) (s : S) → sent (send bytes s).1 ≡ sent s ++ take (send bytes s).0 bytes
  pub send_some : (bytes : List ℕ) (s : S) → 0 < length bytes → 0 < (send bytes s).0

module _ {S : Type 0} (k : Sink S) where
  -- `write`, with at most `fuel` rounds of its loop: `none` is one that goes on.
  unfoldable pub write : ℕ → List ℕ → S → Option S
  write zero bytes s = if length bytes == 0 then some s else none
  write (suc fuel) bytes s =
      let moved = k.send bytes s in
      let rest = write fuel (drop moved.0 bytes) moved.1 in
      if length bytes == 0 then some s else rest

  -- `write` returns, within as many rounds as there are bytes, and the socket has been given all of them in
  -- their order, however few it takes at a time.
  pub write-sends :
      (fuel : ℕ) (bytes : List ℕ) (s : S)
      → length bytes ≤ fuel
      → (t : S) × ((write fuel bytes s ≡ some t) × (k.sent t ≡ k.sent s ++ bytes))
  unfolding write
  write-sends zero [] s h = (s, (refl, sym (append-nil (k.sent s))))
  write-sends (suc fuel) [] s h = (s, (refl, sym (append-nil (k.sent s))))
  write-sends zero (b ∷ bytes) s h = absurd (omega arith)
  write-sends (suc fuel) (b ∷ bytes) s h =
      let moved = k.send (b ∷ bytes) s in
      let some_moved = k.send_some (b ∷ bytes) s (omega arith) in
      let (t, (eq, all)) =
        write-sends fuel (drop moved.0 (b ∷ bytes)) moved.1
          (omega (arith, h, length-drop moved.0 (b ∷ bytes), some_moved)) in
      (
        t,
        (
          ground (arith, eq),
          all
              ∙ ap (λ m. m ++ drop moved.0 (b ∷ bytes)) (k.sent-send (b ∷ bytes) s)
              ∙ append_assoc (k.sent s) (take moved.0 (b ∷ bytes)) (drop moved.0 (b ∷ bytes))
              ∙ ap (λ m. k.sent s ++ m) (take-drop moved.0 (b ∷ bytes)),
        ),
      )

append-nil_of : (xs ys : List ℕ) → xs ++ ys ≡ [] → (xs ≡ []) × (ys ≡ [])
append-nil_of [] ys h = (refl, h)
append-nil_of (x ∷ xs) ys h = cc

module _ {S : Type 0} (k : Socket S) where
  recv_some-none : (fuel : ℕ) (s : S) → k.bytes s ≡ [] → recv_some k fuel s ≡ none
  recv_some-none zero s h =
      let (got, rest) =
        append-nil_of (k.recv read_buffer_size s).0 _ (k.recv-bytes read_buffer_size s ∙ h) in
      rw got refl
  recv_some-none (suc fuel) s h =
      let (got, rest) =
        append-nil_of (k.recv read_buffer_size s).0 _ (k.recv-bytes read_buffer_size s ∙ h) in
      rw got (recv_some-none fuel (k.recv read_buffer_size s).1 rest)

  -- A peer that sends nothing more, as one that has closed the connection: `read` of a few bytes from an
  -- empty buffer never returns, whatever number of rounds it is given.
  pub read-endless :
      (fuel count : ℕ) (c : Conn S)
      → 0 < count
      → count ≤ read_buffer_size / 2
      → c.offset ≡ length c.buffer
      → k.bytes c.socket ≡ []
      → read k fuel count c ≡ ok none
  unfolding read read_loop read_into_buffer
  read-endless zero count c p small e h = ground (arith, p)
  read-endless (suc fuel) count c p small e h =
      let some_left : (count == 0) ≡ false = ground (arith, p) in
      let nothing : min count (length c.buffer - c.offset) ≡ 0 = ground (arith, e) in
      let left : (count - 0 == 0) ≡ false = ground (arith, p) in
      let few : ltb (read_buffer_size / 2) (count - 0) ≡ false = ground (arith, small) in
      let used : (c.offset + 0 == length c.buffer) ≡ true = ground (arith, e) in
      rw (some_left, nothing, left, few, used, recv_some-none fuel c.socket h) refl
