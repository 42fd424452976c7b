-- ===== src/Containers/Buffer.antt =====
-- src/containers/buffer.hpp: the linkable buffer and its owner.
use indecorous.Base.{
  ℕ, ◌+◌, Bool, true, false, Option, none, some, List, Result, ok, err, undefined, assert, ◌>>◌,
  leb,
}

-- `linkable_buffer_t`: the recorded capacity, and the bytes behind it.
pub record LinkableBuffer : Type 0 where
  pub capacity : ℕ
  pub bytes : List ℕ

-- `alloc_info_t`
pub data AllocInfo : Type 0 where
  heap array : AllocInfo

-- `buffer_owner_t`; `none` is the null pointer.
pub record BufferOwner : Type 0 where
  pub alloc : AllocInfo
  pub buffer : Option LinkableBuffer

-- What `new char[n]` holds before anything is written there.
abbrev pub Memory : Type 0
Memory = ℕ → List ℕ

-- `linkable_buffer_t::create`
unfoldable pub create : Memory → ℕ → LinkableBuffer
create memory cap = record { capacity = cap; bytes = memory cap }

-- `buffer_owner_t(cap)`
unfoldable pub allocate : Memory → ℕ → BufferOwner
unfolding create
allocate memory cap = record { alloc = heap; buffer = some (create memory cap) }

unfoldable pub empty : BufferOwner
empty = record { alloc = heap; buffer = none }

-- `sizeof(linkable_buffer_t)`: four words (vtable, next, prev, capacity) and a padded `char[1]`.
abbrev pub sizeof_linkable_buffer : ℕ
sizeof_linkable_buffer = 40

-- `from_array`: the buffer stands inside a caller's array of `buffer_size` bytes.
unfoldable pub from_array : Memory → ℕ → ℕ → Result BufferOwner
unfolding create
from_array memory buffer_size cap = do
  assert (leb (sizeof_linkable_buffer + cap) buffer_size)
  ok (record { alloc = array; buffer = some (create memory cap) })

unfoldable pub from_heap : Option LinkableBuffer → BufferOwner
from_heap b = record { alloc = heap; buffer = b }

-- `release`: the pointer, and the owner that no longer has it.
unfoldable pub release : BufferOwner → Option LinkableBuffer × BufferOwner
release o = (o.buffer, record o { buffer = none })

-- `buffer_owner_t(buffer_owner_t &&other)`: the new owner, and what is left in the old.
unfoldable pub move : BufferOwner → BufferOwner × BufferOwner
unfolding release
move o = let (b, left) = release o in (record { alloc = o.alloc; buffer = b }, left)

abbrev pub has_buffer : Option LinkableBuffer → Bool
has_buffer none = false
has_buffer (some _) = true

unfoldable pub has : BufferOwner → Bool
has o = has_buffer o.buffer

-- Through the pointer: the assertion of `capacity()` and of `data()`.
abbrev deref : Option LinkableBuffer → Result LinkableBuffer
deref none = err undefined
deref (some b) = ok b

unfoldable pub owned : BufferOwner → Result LinkableBuffer
unfolding has
owned o = do assert (has o); deref o.buffer
