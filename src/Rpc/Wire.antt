-- ===== src/Rpc/Wire.antt =====
-- src/rpc/message.hpp and message.cc: a message under construction, and a message being read.
use indecorous.Base.{
  ℕ, ◌+◌, ◌≡◌, none, some, List, [], ◌∷◌, ◌++◌, length, get_elem?, set, length-append, append_assoc,
  get_elem?-append, set-append, length-snoc, Result, ok, err, undefined, assert, ◌>>=◌, ◌>>◌, leb,
  ltb, ◌==◌, arith,
}
use indecorous.Containers.Buffer.{BufferOwner, heap, owned, has}

-- `write_message_t`
pub record WriteMessage : Type 0 where
  pub buffer : BufferOwner
  pub usage : ℕ

-- `read_message_t`. An id is a `uint64_t` in a class of its own.
pub record ReadMessage : Type 0 where
  pub buffer : BufferOwner
  pub offset : ℕ
  pub source_id : ℕ
  pub rpc_id : ℕ
  pub request_id : ℕ

-- `write_message_t::push_back`. Past the capacity the write is out of bounds.
unfoldable pub push_back : WriteMessage → ℕ → Result WriteMessage
unfolding owned has
push_back m c = do
  b ← owned m.buffer
  assert (leb (m.usage + 1) b.capacity)
  ok (record m {
    buffer = record m.buffer { buffer = some (record b { bytes = set b.bytes m.usage c }) };
    usage = m.usage + 1;
  })

-- `data()[offset]`
abbrev byte_at : List ℕ → ℕ → Result ℕ
byte_at bytes i = elim (get_elem? bytes i) [ none ↦ err undefined | some c ↦ ok c ]

-- `read_message_t::pop`
unfoldable pub pop : ReadMessage → Result (ℕ × ReadMessage)
unfolding owned has
pop m = do
  b ← owned m.buffer
  assert (ltb m.offset b.capacity)
  c ← byte_at b.bytes m.offset
  ok (c, record m { offset = m.offset + 1 })

-- `write_message_t::release`: every byte that was sized has been written.
unfoldable pub release : WriteMessage → Result BufferOwner
unfolding owned has
release m = do b ← owned m.buffer; assert (m.usage == b.capacity); ok m.buffer

-- A buffer on the heap that holds `bytes`.
abbrev pub buffer_of : List ℕ → BufferOwner
buffer_of bytes = record {
  alloc = heap;
  buffer = some (record { capacity = length bytes; bytes = bytes });
}

-- A message that has `written` behind it and room for `room` bytes.
abbrev pub writing : List ℕ → List ℕ → WriteMessage
writing written room = record { buffer = buffer_of (written ++ room); usage = length written }

-- The ids of a message that is read.
pub record Ids : Type 0 where
  pub source : ℕ
  pub rpc : ℕ
  pub request : ℕ

-- A message of which `read` has been consumed and `rest` has not.
abbrev pub reading : Ids → List ℕ → List ℕ → ReadMessage
reading ids read rest = record {
  buffer = buffer_of (read ++ rest);
  offset = length read;
  source_id = ids.source;
  rpc_id = ids.rpc;
  request_id = ids.request;
}

pub push_back-writing :
    (written room : List ℕ) (old c : ℕ)
    → push_back (writing written (old ∷ room)) c ≡ ok (writing (written ++ c ∷ []) room)
unfolding push_back
push_back-writing written room old c = ground (
  arith,
  set-append written room old c,
  append_assoc written (c ∷ []) room,
  length-append written (old ∷ room),
  length-append written (c ∷ room),
  length-snoc written c,
)

pub pop-reading :
    (ids : Ids) (read rest : List ℕ) (c : ℕ)
    → pop (reading ids read (c ∷ rest)) ≡ ok (c, reading ids (read ++ c ∷ []) rest)
unfolding pop
pop-reading ids read rest c = ground (
  arith,
  get_elem?-append read rest c,
  append_assoc read (c ∷ []) rest,
  length-append read (c ∷ rest),
  length-snoc read c,
)
