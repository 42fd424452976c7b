-- ===== src/Io/Tcp/Returns.antt =====
-- src/io/tcp.cc: the loop of `read` ends, with the bytes that were asked for.
use indecorous.Base.{
  ℕ, zero, suc, ◌+◌, ◌-◌, ◌/◌, ◌≤◌, ◌<◌, min, ◌≡◌, ◌⊎◌, inl, inr, refl, ◌∙◌, Bool-cases, some, [],
  ◌++◌, length, length-append, take, drop, length-drop, ok, ◌==◌, ltb, arith,
}
use indecorous.Io.Tcp.{Socket, Conn, Loop, read_buffer_size, round, read_loop, read}
use indecorous.Io.Tcp.Reads.{
  unread, read_into_buffer-eq, available, need, Keeps, direct-Keeps, copied-Keeps, refilled-Keeps,
}

module _ {S : Type 0} (k : Socket S) where
  -- A round on a connection that will give the bytes ends well.
  round-Keeps :
      (fuel : ℕ) (l : Loop S)
      → l.conn.offset ≤ length l.conn.buffer
      → l.count ≤ length (unread k l.conn)
      → (t : Loop S) × ((round k fuel l ≡ ok (some t)) × Keeps k l t)
  round-Keeps fuel l within enough =
      let n = min l.count (available k l.conn) in
      let left = l.count - n in
      let o = l.conn.offset in
      let b = l.conn.buffer in
      elim (Bool-cases (left == 0)) [
        | inl e ↦ (
          record {
            count = 0;
            out = l.out ++ take n (drop o b);
            conn = record l.conn { offset = o + n };
          },
          (rw e refl, copied-Keeps k l n (ground arith) (ground arith) within),
        )
        | inr e ↦ elim (Bool-cases (ltb (read_buffer_size / 2) left)) [
          | inl big ↦ (
            _,
            (rw (e, big) refl, direct-Keeps k l n left refl refl (ground (arith, e)) within enough),
          )
          | inr small ↦
              let next : Conn S = record l.conn { offset = o + n } in
              let rest : length (drop o b ++ k.bytes l.conn.socket)
                  ≡ available k l.conn + length (k.bytes l.conn.socket) =
                omega (arith, length-append (drop o b) (k.bytes l.conn.socket), length-drop o b) in
              let p : 0 < left = ground (arith, e) in
              let (d, (eq, (same, (start, some_bytes)))) =
                read_into_buffer-eq k fuel next (ground (arith, p, within))
                  (ground (arith, p, rest, enough)) in
              (
                record { count = left; out = l.out ++ take n (drop o b); conn = d },
                (
                  rw (e, small, eq) refl,
                  refilled-Keeps k l n left d refl refl p within enough same start some_bytes,
                ),
              )
        ]
      ]

  read_loop-takes :
      (fuel : ℕ) (l : Loop S)
      → l.conn.offset ≤ length l.conn.buffer
      → l.count ≤ length (unread k l.conn)
      → (l.count ≡ 0) ⊎ (need k l ≤ fuel)
      → (t : Loop S) × ((read_loop k fuel l ≡ ok (some t))
          × ((t.out ++ unread k t.conn ≡ l.out ++ unread k l.conn)
              × ((length t.out ≡ length l.out + l.count) × (t.conn.offset ≤ length t.conn.buffer))))
  unfolding read_loop
  read_loop-takes zero l within enough f =
      let none_left : l.count ≡ 0 = (elim f [ inl e ↦ e | inr h ↦ omega (arith, h) ]) in
      (l, (ground (arith, none_left), (refl, (omega (arith, none_left), within))))
  read_loop-takes (suc fuel) l within enough f = elim (Bool-cases (l.count == 0)) [
    | inl e ↦ (l, (rw e refl, (refl, (ground (arith, e), within))))
    | inr e ↦
        let (m, (eq, v)) = round-Keeps fuel l within enough in
        let fits : need k l ≤ suc fuel = (elim f [
          | inl z ↦ absurd (ground (arith, z, e))
          | inr h ↦ h
        ]) in
        let fuel_left : (m.count ≡ 0) ⊎ (need k m ≤ fuel) = (elim v.progress [
          | inl z ↦ inl z
          | inr h ↦ inr (omega (arith, h, fits))
        ]) in
        let (t, (eq', (bytes, (total, within')))) =
          read_loop-takes fuel m v.within v.enough fuel_left in
        (t, (rw (e, eq) eq', (bytes ∙ v.bytes, (omega (arith, total, v.total), within'))))
  ]

  -- `read` of bytes that will come returns, within one round more than the bytes: it has put as many as
  -- were asked for in the caller's buffer, these are the next bytes of the connection in their order, and
  -- those behind them are still to be read, however the socket hands them out.
  pub read-takes :
      (fuel count : ℕ) (c : Conn S)
      → c.offset ≤ length c.buffer
      → count ≤ length (unread k c)
      → count < fuel
      → (t : Loop S) × ((read k fuel count c ≡ ok (some t))
          × ((t.out ++ unread k t.conn ≡ unread k c)
              × ((length t.out ≡ count) × (t.conn.offset ≤ length t.conn.buffer))))
  unfolding read
  read-takes fuel count c within enough h =
      let fits : need k (record { count = count; out = []; conn = c }) ≤ fuel = omega (arith, h) in
      let (t, (eq, (bytes, (total, within')))) =
        read_loop-takes fuel (record { count = count; out = []; conn = c }) within enough
          (inr fits) in
      (t, (eq, (bytes, (omega (arith, total), within'))))
