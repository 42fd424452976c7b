-- ===== src/Io/Tcp/Reads.antt =====
-- src/io/tcp.cc: `read` takes the next bytes of the connection, however they come.
use indecorous.Base.{
  ℕ, zero, suc, ◌+◌, ◌-◌, ◌≤◌, ◌<◌, min, ◌≡◌, ◌⊎◌, inl, inr, refl, ap, ◌∙◌, true, some, List, [],
  ◌++◌, append_assoc, length, length-append, take, drop, take-drop, drop-add, length-take,
  length-drop, eq-nil_of_length, ok, ◌==◌, arith,
}
use indecorous.Io.Tcp.{Socket, Conn, Loop, read_buffer_size, recv_some, read_into_buffer}

pub regroup : (xs ys zs ws : List ℕ) → (xs ++ ys) ++ (zs ++ ws) ≡ xs ++ ((ys ++ zs) ++ ws)
regroup xs ys zs ws = rw (append_assoc xs ys (zs ++ ws), append_assoc ys zs ws) refl

module _ {S : Type 0} (k : Socket S) where
  -- The bytes that a connection will still give: those in its buffer, and those of the socket.
  abbrev pub unread : Conn S → List ℕ
  unread c = drop c.offset c.buffer ++ k.bytes c.socket

  pub recv_some-eq :
      (fuel : ℕ) (s : S)
      → 0 < length (k.bytes s)
      → recv_some k fuel s ≡ some (k.recv read_buffer_size s)
  recv_some-eq zero s h =
      let got = k.recv-some read_buffer_size s (omega arith) h in ground (arith, got)
  recv_some-eq (suc fuel) s h =
      let got = k.recv-some read_buffer_size s (omega arith) h in ground (arith, got)

  pub read_into_buffer-eq :
      (fuel : ℕ) (c : Conn S)
      → c.offset ≡ length c.buffer
      → 0 < length (k.bytes c.socket)
      → (d : Conn S) × ((read_into_buffer k fuel c ≡ ok (some d))
          × ((unread d ≡ k.bytes c.socket) × ((d.offset ≡ 0) × (0 < length d.buffer))))
  unfolding read_into_buffer
  read_into_buffer-eq fuel c e h =
      let got = k.recv read_buffer_size c.socket in
      let full : (c.offset == length c.buffer) ≡ true = ground arith in
      (
        record { buffer = got.0; offset = 0; socket = got.1 },
        (
          rw (full, recv_some-eq fuel c.socket h) refl,
          (
            k.recv-bytes read_buffer_size c.socket,
            (refl, k.recv-some read_buffer_size c.socket (omega arith) h),
          ),
        ),
      )

  -- What is in the buffer and not yet copied, and the rounds that a loop may still need.
  abbrev pub available : Conn S → ℕ
  available c = length c.buffer - c.offset

  abbrev pub need : Loop S → ℕ
  need l = l.count + (1 - available l.conn)

  -- What a round keeps: the bytes behind each other, and how many there will be.
  pub record Keeps (l t : Loop S) : Type 0 where
    pub bytes : t.out ++ unread t.conn ≡ l.out ++ unread l.conn
    pub total : length t.out + t.count ≡ length l.out + l.count
    pub within : t.conn.offset ≤ length t.conn.buffer
    pub enough : t.count ≤ length (unread t.conn)
    pub progress : (t.count ≡ 0) ⊎ (need t < need l)

  pub split : (o n : ℕ) (b : List ℕ) → take n (drop o b) ++ drop (o + n) b ≡ drop o b
  split o n b = rw (drop-add o n b) (take-drop n (drop o b))

  -- The bytes that are copied out of the buffer.
  pub copied-eq :
      (l : Loop S) (n : ℕ)
      → ((l.out ++ take n (drop l.conn.offset l.conn.buffer))
          ++ (drop (l.conn.offset + n) l.conn.buffer ++ k.bytes l.conn.socket))
        ≡ l.out ++ unread l.conn
  copied-eq l n =
      let o = l.conn.offset in
      let b = l.conn.buffer in
      regroup l.out (take n (drop o b)) (drop (o + n) b) (k.bytes l.conn.socket)
      ∙ ap (λ m. l.out ++ (m ++ k.bytes l.conn.socket)) (split o n b)

  pub length-copied :
      (l : Loop S) (n : ℕ)
      → n ≤ available l.conn
      → length (l.out ++ take n (drop l.conn.offset l.conn.buffer)) ≡ length l.out + n
  length-copied l n h =
      let o = l.conn.offset in
      let b = l.conn.buffer in
      let m = length-append l.out (take n (drop o b)) in
      let d = length-drop o b in
      let t = length-take n (drop o b) (omega (arith, d, h)) in omega (arith, m, t)

  -- A round that receives into the caller's buffer: the connection's own buffer is used up.
  pub direct-Keeps :
      (l : Loop S) (n left : ℕ)
      → n ≡ min l.count (available l.conn)
      → left ≡ l.count - n
      → 0 < left
      → l.conn.offset ≤ length l.conn.buffer
      → l.count ≤ length (unread l.conn)
      → Keeps l (record {
        count = left - length (k.recv left l.conn.socket).0;
        out = (l.out ++ take n (drop l.conn.offset l.conn.buffer)) ++ (k.recv left l.conn.socket).0;
        conn = record {
          buffer = l.conn.buffer;
          offset = l.conn.offset + n;
          socket = (k.recv left l.conn.socket).1;
        };
      })
  direct-Keeps l n left en el p within enough =
      let o = l.conn.offset in
      let b = l.conn.buffer in
      let got = k.recv left l.conn.socket in
      let all : n ≡ available l.conn = ground (arith, en, el, p) in
      let used : drop (o + n) b ≡ [] =
        eq-nil_of_length (drop (o + n) b) (omega (arith, length-drop (o + n) b, all, within)) in
      let rest : length (drop o b ++ k.bytes l.conn.socket)
          ≡ available l.conn + length (k.bytes l.conn.socket) =
        omega (arith, length-append (drop o b) (k.bytes l.conn.socket), length-drop o b) in
      let comes = k.recv-some left l.conn.socket p (omega (arith, rest, enough, all, el, p)) in
      let flow = k.recv-bytes left l.conn.socket in
      let most = k.length-recv left l.conn.socket in
      let sent = ap length flow in
      let sum = length-append got.0 (k.bytes got.1) in
      let copied = length-copied l n (omega (arith, all)) in
      record {
        bytes =
            rw (used, append_assoc (l.out ++ take n (drop o b)) got.0 (k.bytes got.1), flow)
              (rw used at (copied-eq l n));
        total =
            omega
              (arith, copied, most, el, all, p, length-append (l.out ++ take n (drop o b)) got.0);
        within = omega (arith, all, within);
        enough = rw used (omega (arith, sent, sum, rest, enough, all, el, p));
        progress = inr (omega (arith, all, el, p, comes, most));
      }

  -- The last round, which finds enough in the buffer.
  pub copied-Keeps :
      (l : Loop S) (n : ℕ)
      → n ≤ available l.conn
      → n ≡ l.count
      → l.conn.offset ≤ length l.conn.buffer
      → Keeps l (record {
        count = 0;
        out = l.out ++ take n (drop l.conn.offset l.conn.buffer);
        conn = record l.conn { offset = l.conn.offset + n };
      })
  copied-Keeps l n few all within = record {
    bytes = copied-eq l n;
    total = omega (arith, length-copied l n few, all);
    within = omega (arith, few, within);
    enough = omega arith;
    progress = inl refl;
  }

  -- A round that fills the connection's own buffer again.
  pub refilled-Keeps :
      (l : Loop S) (n left : ℕ) (d : Conn S)
      → n ≡ min l.count (available l.conn)
      → left ≡ l.count - n
      → 0 < left
      → l.conn.offset ≤ length l.conn.buffer
      → l.count ≤ length (unread l.conn)
      → unread d ≡ k.bytes l.conn.socket
      → d.offset ≡ 0
      → 0 < length d.buffer
      → Keeps l (record {
        count = left;
        out = l.out ++ take n (drop l.conn.offset l.conn.buffer);
        conn = d;
      })
  refilled-Keeps l n left d en el p within enough same start some_bytes =
      let o = l.conn.offset in
      let b = l.conn.buffer in
      let all : n ≡ available l.conn = ground (arith, en, el, p) in
      let used : drop (o + n) b ≡ [] =
        eq-nil_of_length (drop (o + n) b) (omega (arith, length-drop (o + n) b, all, within)) in
      let rest : length (drop o b ++ k.bytes l.conn.socket)
          ≡ available l.conn + length (k.bytes l.conn.socket) =
        omega (arith, length-append (drop o b) (k.bytes l.conn.socket), length-drop o b) in
      record {
        bytes = rw same (rw used at (copied-eq l n));
        total = omega (arith, length-copied l n (omega (arith, all)), el, all, p);
        within = omega (arith, start);
        enough = rw same (omega (arith, rest, enough, all, el, p));
        progress = inr (omega (arith, all, el, p, start, some_bytes));
      }
