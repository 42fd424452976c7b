-- ===== src/Io/Tcp/Peek.antt =====
-- src/io/tcp.cc: `tcp_conn_t::peek`, which shows the next bytes of a connection and leaves them there.
use indecorous.Base.{
  ℕ, zero, suc, ◌+◌, ◌-◌, ◌≤◌, ◌<◌, ◌≡◌, inl, inr, refl, ap, ◌∙◌, sym, false, Bool-cases, Option,
  none, some, List, [], ◌∷◌, ◌++◌, append_assoc, length, length-append, length-drop, take, drop,
  ltb, if◌then◌else◌, arith,
}
use indecorous.Io.Tcp.{Socket, Conn, read_buffer_size}
use indecorous.Io.Tcp.Reads.{unread}

-- What `peek` does: it throws `peek_length_exc_t`, or its loop goes on, or it gives the bytes.
pub data Peek (S : Type 0) : Type 0 where
  too_long goes_on : Peek S
  peeked : List ℕ → Conn S → Peek S

-- The bytes in the buffer are moved to its start if the rest of it is too short.
abbrev pub shifted : {S : Type 0} → ℕ → Conn S → Conn S
shifted count c =
    if ltb (read_buffer_size - c.offset) count
    then record c { buffer = drop c.offset c.buffer; offset = 0 }
    else c

module _ {S : Type 0} (k : Socket S) where
  -- One read behind the bytes in the buffer
  abbrev pub more : Conn S → Conn S
  more c =
      let got = k.recv (read_buffer_size - length c.buffer) c.socket in
      record c { buffer = c.buffer ++ got.0; socket = got.1 }

  -- The loop of `peek`, with at most `fuel` rounds
  unfoldable pub fill : ℕ → ℕ → Conn S → Option (Conn S)
  fill zero count c = if ltb (length c.buffer - c.offset) count then none else some c
  fill (suc fuel) count c =
      let rest = fill fuel count (more c) in
      if ltb (length c.buffer - c.offset) count then rest else some c

  abbrev pub shown : ℕ → Option (Conn S) → Peek S
  shown count none = goes_on
  shown count (some c) = peeked (take count (drop c.offset c.buffer)) c

  -- `peek`
  unfoldable pub peek : ℕ → ℕ → Conn S → Peek S
  peek fuel count c =
      if ltb read_buffer_size count
      then too_long
      else shown count (fill fuel count (shifted count c))

  -- A connection whose buffer has room for `count` bytes behind the offset.
  pub record HasRoom (count : ℕ) (c : Conn S) : Type 0 where
    pub within : c.offset ≤ length c.buffer
    pub room : c.offset + count ≤ read_buffer_size
    pub enough : count ≤ length (unread k c)

  drop-append : (n : ℕ) (xs ys : List ℕ) → n ≤ length xs → drop n (xs ++ ys) ≡ drop n xs ++ ys
  drop-append zero xs ys h = refl
  drop-append (suc n) [] ys h = absurd (omega arith)
  drop-append (suc n) (x ∷ xs) ys h = drop-append n xs ys (omega arith)

  more-unread : (c : Conn S) → c.offset ≤ length c.buffer → unread k (more c) ≡ unread k c
  more-unread c h =
      let n = read_buffer_size - length c.buffer in
      let got = k.recv n c.socket in
      rw
        (
          drop-append c.offset c.buffer got.0 h,
          append_assoc (drop c.offset c.buffer) got.0 (k.bytes got.1),
          k.recv-bytes n c.socket,
        )
        refl

  length-more :
      (count : ℕ) (c : Conn S)
      → HasRoom count c
      → length c.buffer - c.offset < count
      → length c.buffer < length (more c).buffer
  length-more count c v short =
      let n = read_buffer_size - length c.buffer in
      let got = k.recv n c.socket in
      let sum = length-append (drop c.offset c.buffer) (k.bytes c.socket) in
      let comes =
        k.recv-some n c.socket (omega (arith, v.room, v.within, short))
          (omega (arith, sum, v.enough, length-drop c.offset c.buffer, short)) in
      omega (arith, length-append c.buffer got.0, comes)

  fill-unread :
      (fuel count : ℕ) (c : Conn S)
      → HasRoom count c
      → count ≤ fuel + (length c.buffer - c.offset)
      → (d : Conn S) × ((fill fuel count c ≡ some d)
          × ((unread k d ≡ unread k c)
              × ((count ≤ length d.buffer - d.offset) × (d.offset ≤ length d.buffer))))
  unfolding fill
  fill-unread zero count c v h = (c, (ground (arith, h), (refl, (omega (arith, h), v.within))))
  fill-unread (suc fuel) count c v h = elim (Bool-cases (ltb (length c.buffer - c.offset) count)) [
    | inr e ↦ (c, (rw e refl, (refl, (ground (arith, e), v.within))))
    | inl e ↦
        let short : length c.buffer - c.offset < count = ground (arith, e) in
        let grown = length-more count c v short in
        let same = more-unread c v.within in
        let w : HasRoom count (more c) = record {
          within = omega (arith, v.within, grown);
          room = v.room;
          enough = rw same v.enough;
        } in
        let (d, (eq, (all, (long, within)))) =
          fill-unread fuel count (more c) w (omega (arith, h, grown, v.within)) in
        (d, (rw (e, eq) refl, (all ∙ same, (long, within))))
  ]

  shifted-HasRoom :
      (count : ℕ) (c : Conn S)
      → c.offset ≤ length c.buffer
      → c.offset ≤ read_buffer_size
      → count ≤ read_buffer_size
      → count ≤ length (unread k c)
      → HasRoom count (shifted count c) × (unread k (shifted count c) ≡ unread k c)
  shifted-HasRoom count c within bound small enough =
      elim (Bool-cases (ltb (read_buffer_size - c.offset) count)) [
        | inl e ↦
            rw e
              (record { within = omega arith; room = omega (arith, small); enough = enough }, refl)
        | inr e ↦
            rw e
              (record { within = within; room = ground (arith, e, bound); enough = enough }, refl)
      ]

  take-append : (n : ℕ) (xs ys : List ℕ) → n ≤ length xs → take n (xs ++ ys) ≡ take n xs
  take-append zero xs ys h = refl
  take-append (suc n) [] ys h = absurd (omega arith)
  take-append (suc n) (x ∷ xs) ys h = ap (◌∷◌ x) (take-append n xs ys (omega arith))

  -- `peek` of bytes that will come, no more than the buffer can hold, returns within as many rounds as there
  -- are bytes: it shows the next bytes of the connection, and all of them are still to be read.
  pub peek-unread :
      (fuel count : ℕ) (c : Conn S)
      → c.offset ≤ length c.buffer
      → c.offset ≤ read_buffer_size
      → count ≤ read_buffer_size
      → count ≤ length (unread k c)
      → count ≤ fuel
      → (d : Conn S) × ((peek fuel count c ≡ peeked (take count (unread k c)) d)
          × (unread k d ≡ unread k c))
  unfolding peek
  peek-unread fuel count c within bound small enough h =
      let (v, same) = shifted-HasRoom count c within bound small enough in
      let (d, (eq, (all, (long, inside)))) =
        fill-unread fuel count (shifted count c) v (omega (arith, h)) in
      let fits : ltb read_buffer_size count ≡ false = ground (arith, small) in
      let kept : unread k d ≡ unread k c = all ∙ same in
      let front =
        take-append count (drop d.offset d.buffer) (k.bytes d.socket)
          (omega (arith, long, length-drop d.offset d.buffer)) in
      (d, (rw (fits, eq) (ap (λ out. peeked out d) (sym front ∙ ap (take count) kept)), kept))
