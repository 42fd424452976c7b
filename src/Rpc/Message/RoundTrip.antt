-- ===== src/Rpc/Message/RoundTrip.antt =====
-- src/rpc/message.cc: what `create` writes, `parse` and the arguments' serializers read back.
use indecorous.Base.{
  ℕ, ◌+◌, ◌≡◌, refl, ap, List, [], ◌++◌, length, length-append, append-nil, replicate,
  length-replicate, Result, ok, ◌>>=◌, ==_refl, arith,
}
use indecorous.Containers.Buffer.{Memory, allocate}
use indecorous.Rpc.Wire.{Ids, writing, reading, buffer_of, release}
use indecorous.Rpc.Serializer.{
  Serializer, IsLawful, pack_nil, pack_cons, pack_nil-IsLawful, pack_cons-IsLawful, split_room,
}
use indecorous.Rpc.Integral.{integral, members, Fits, integral-IsLawful, members-IsLawful}
use indecorous.Rpc.Message.{
  MessageHeader, magic_number, sizeof_header, header_fields, make_header, header_pack, header,
  start, create, parse, no_id, HeaderPack,
}

abbrev FitsPack : HeaderPack → Type 0
FitsPack p =
    Fits 8 p.0
    × (Fits 8 p.1.0 × (Fits 8 p.1.1.0 × (Fits 8 p.1.1.1.0 × (Fits 8 p.1.1.1.1.0 × Unit {0}))))

header_pack-IsLawful : IsLawful header_pack FitsPack
header_pack-IsLawful =
    let u = integral-IsLawful 8 in
    pack_cons-IsLawful u (
      pack_cons-IsLawful u
        (pack_cons-IsLawful u (pack_cons-IsLawful u (pack_cons-IsLawful u pack_nil-IsLawful))))

pub header-IsLawful : IsLawful header (λ h. FitsPack (header_fields h))
unfolding header
header-IsLawful = members-IsLawful header_fields make_header (λ h. refl) header_pack-IsLawful

header_size : (h : MessageHeader) → header.size h ≡ sizeof_header
unfolding header members pack_cons pack_nil integral
header_size h = refl

abbrev header_bytes : MessageHeader → List ℕ
header_bytes = header-IsLawful.encode

length-header_bytes : (h : MessageHeader) → length (header_bytes h) ≡ sizeof_header
length-header_bytes h = omega (arith, header_size h, header-IsLawful.size-encode h)

-- The header that `start` writes.
abbrev pub header_of : ℕ → ℕ → ℕ → ℕ → MessageHeader
header_of source rpc request payload = record {
  magic = magic_number;
  source_id = source;
  rpc_id = rpc;
  request_id = request;
  payload_size = payload;
}

-- A block of memory as a fresh message of that capacity.
fresh_writing :
    (memory : Memory) (n : ℕ) (front back : List ℕ)
    → ((k : ℕ) → length (memory k) ≡ k)
    → memory n ≡ front ++ back
    → record { buffer = allocate memory n; usage = 0 } ≡ writing [] (front ++ back)
unfolding allocate
fresh_writing memory n front back hm e = ground (arith, hm n)

module _ (memory : Memory) (memory_size : (n : ℕ) → length (memory n) ≡ n)
    (source rpc request : ℕ) where
  start-writing :
      (payload : ℕ)
      → (room : List ℕ) × (length room ≡ payload)
        × (start memory source rpc request payload
            ≡ ok (writing (header_bytes (header_of source rpc request payload)) room))
  unfolding start
  start-writing payload =
      let h = header_of source rpc request payload in
      let zeros = replicate payload 0 in
      let (front, back, e, hf, hb) =
        split_room (header_bytes h) zeros (memory (sizeof_header + payload)) (
          omega (
            arith,
            memory_size (sizeof_header + payload),
            length-header_bytes h,
            length-append (header_bytes h) zeros,
            length-replicate {A = ℕ} payload 0,
          )) in
      (
        back,
        omega (arith, hb, length-replicate {A = ℕ} payload 0),
        rw (header_size h, fresh_writing memory (sizeof_header + payload) front back memory_size e)
            (header-IsLawful.write-encode [] front back h hf),
      )

  -- `create` fills the buffer: the header, then the arguments, and no room is left.
  pub create-writing :
      {Args : Type 0} {args : Serializer Args} {P : Args → Type 0} (l : IsLawful args P) (a : Args)
      → create memory args source rpc request a
        ≡ ok (writing (header_bytes (header_of source rpc request (args.size a)) ++ l.encode a) [])
  unfolding create
  create-writing {args} l a =
      let (room, len, e) = start-writing (args.size a) in
      rw e (
        rw (append-nil room) at (
          l.write-encode (header_bytes (header_of source rpc request (args.size a))) room [] a
            (omega (arith, len, l.size-encode a))))

-- Parsing what starts with a header gives its ids and stops behind it.
pub parse-reading :
    (source rpc request payload : ℕ) (rest : List ℕ)
    → Fits 8 source
    → Fits 8 rpc
    → Fits 8 request
    → Fits 8 payload
    → let h = header_bytes (header_of source rpc request payload) in
      parse (buffer_of (h ++ rest))
      ≡ ok (reading (record { source = source; rpc = rpc; request = request }) h rest)
unfolding parse
parse-reading source rpc request payload rest hs hr hq hp =
    let h = header_of source rpc request payload in
    let none_yet : Ids = record { source = no_id; rpc = no_id; request = no_id } in
    rw (header-IsLawful.read-encode none_yet [] rest h (omega arith, (hs, (hr, (hq, (hp, tt))))))

-- A message on its way: it is made, its buffer is released, parsed, and the arguments are read. The
-- result is what the reader sees: the arguments, the three ids, and where the reading stopped.
abbrev pub carry :
    {Args : Type 0} → Memory → Serializer Args → ℕ → ℕ → ℕ → Args → Result (Args × ℕ × ℕ × ℕ × ℕ)
carry memory args source rpc request a = do
  w ← create memory args source rpc request a
  buffer ← release w
  m ← parse buffer
  (b, m') ← args.read m
  ok (b, m.source_id, m.rpc_id, m.request_id, m'.offset)

release-writing : (written : List ℕ) → release (writing written []) ≡ ok (buffer_of written)
unfolding release
release-writing written = rw (append-nil written, ==_refl (length written))

module _ {Args : Type 0} {args : Serializer Args} {P : Args → Type 0} (l : IsLawful args P)
    (memory : Memory) (memory_size : (n : ℕ) → length (memory n) ≡ n) where
  -- A message made by `create` is full, so `release` gives its buffer; `parse` of the buffer finds the
  -- three ids, and the arguments' serializer then reads the arguments and stops at the buffer's end.
  pub parse-create :
      (source rpc request : ℕ) (a : Args)
      → Fits 8 source
      → Fits 8 rpc
      → Fits 8 request
      → Fits 8 (args.size a)
      → P a
      → carry memory args source rpc request a
        ≡ ok (a, source, rpc, request, sizeof_header + args.size a)
  parse-create source rpc request a hs hr hq hp v =
      let h = header_bytes (header_of source rpc request (args.size a)) in
      let ids : Ids = record { source = source; rpc = rpc; request = request } in
      let body : args.read (reading ids h (l.encode a)) ≡ ok (a, reading ids (h ++ l.encode a) []) =
        rw (append-nil (l.encode a)) at (l.read-encode ids h [] a v) in
      rw
        (
          create-writing memory memory_size source rpc request l a,
          release-writing (h ++ l.encode a),
          parse-reading source rpc request (args.size a) (l.encode a) hs hr hq hp,
          body,
        )
        (ap (λ n. ok (a, source, rpc, request, n))
          (omega (
            arith,
            length-append h (l.encode a),
            length-header_bytes (header_of source rpc request (args.size a)),
            l.size-encode a,
          )))
