-- ===== src/Rpc/Message.antt =====
-- src/rpc/message.hpp and message.cc: the header, `write_message_t::create` and
-- `read_message_t::parse`.
pub mod RoundTrip
use indecorous.Base.{
  ℕ, ◌+◌, ◌-◌, ◌^◌, ◌≡◌, refl, List, Result, ok, ◌>>=◌, ◌>>◌, assert, ◌==◌, arith,
}
use indecorous.Containers.Buffer.{BufferOwner, Memory, allocate, empty, from_array}
use indecorous.Rpc.Wire.{WriteMessage, ReadMessage}
use indecorous.Rpc.Serializer.{Serializer, IsLawful, pack_nil, pack_cons}
use indecorous.Rpc.Integral.{uint64, members}

-- `message_header_t`
pub record MessageHeader : Type 0 where
  pub magic : ℕ
  pub source_id : ℕ
  pub rpc_id : ℕ
  pub request_id : ℕ
  pub payload_size : ℕ

-- `message_header_t::MAGIC`
abbrev pub magic_number : ℕ
magic_number = 0x302ca58d7f47e0be

-- `sizeof(message_header_t)`
abbrev pub sizeof_header : ℕ
sizeof_header = 40

abbrev pub HeaderPack : Type 0
HeaderPack = ℕ × (ℕ × (ℕ × (ℕ × (ℕ × Unit {0}))))

abbrev pub header_fields : MessageHeader → HeaderPack
header_fields h = (h.magic, (h.source_id, (h.rpc_id, (h.request_id, (h.payload_size, tt)))))

abbrev pub make_header : HeaderPack → MessageHeader
make_header p = record {
  magic = p.0;
  source_id = p.1.0;
  rpc_id = p.1.1.0;
  request_id = p.1.1.1.0;
  payload_size = p.1.1.1.1.0;
}

abbrev pub header_pack : Serializer HeaderPack
header_pack =
    pack_cons uint64
      (pack_cons uint64 (pack_cons uint64 (pack_cons uint64 (pack_cons uint64 pack_nil))))

-- `serializer_t<message_header_t>`
unfoldable pub header : Serializer MessageHeader
header = members header_fields make_header header_pack

-- `write_message_t(source_id, rpc_id, request_id, payload_size)`
unfoldable pub start : Memory → ℕ → ℕ → ℕ → ℕ → Result WriteMessage
start memory source_id rpc_id request_id payload_size = do
  let buffer = allocate memory (sizeof_header + payload_size)
  let h : MessageHeader = record {
    magic = magic_number;
    source_id = source_id;
    rpc_id = rpc_id;
    request_id = request_id;
    payload_size = payload_size;
  }
  assert (header.size h == sizeof_header)
  header.write (record { buffer = buffer; usage = 0 }) h

-- `write_message_t::create`, over the serializer of the pack of arguments.
unfoldable pub create :
    {Args : Type 0} → Memory → Serializer Args → ℕ → ℕ → ℕ → Args → Result WriteMessage
unfolding start
create memory args source_id rpc_id request_id a = do
  res ← start memory source_id rpc_id request_id (args.size a)
  args.write res a

-- `target_id_t(-1)`, and so for the other ids.
abbrev pub no_id : ℕ
no_id = 2 ^ 64 - 1

abbrev pub unparsed : BufferOwner → ReadMessage
unparsed buffer = record {
  buffer = buffer;
  offset = 0;
  source_id = no_id;
  rpc_id = no_id;
  request_id = no_id;
}

-- `read_message_t::empty`
unfoldable pub no_message : ReadMessage
no_message = unparsed empty

-- `read_message_t::parse(buffer_owner_t &&)`
unfoldable pub parse : BufferOwner → Result ReadMessage
parse buffer = do
  (h, message) ← header.read (unparsed buffer)
  assert (h.magic == magic_number)
  ok (record {
    buffer = message.buffer;
    offset = message.offset;
    source_id = h.source_id;
    rpc_id = h.rpc_id;
    request_id = h.request_id;
  })
