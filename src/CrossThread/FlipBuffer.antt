-- ===== src/CrossThread/FlipBuffer.antt =====
-- src/cross_thread/flip_buffer.hpp and flip_buffer.cc: two copies of a value, of which every thread reads
-- the one that its `m_current_buffer` names. The mutex lets one `apply_write` run at a time; between its
-- steps any thread may read, and the `flip` calls of the threads come in any order.
pub mod Readers
pub mod Seen
use indecorous.Base.{
  ℕ, zero, suc, ◌+◌, ◌%◌, ◌≡◌, Bool, true, false, not, ◌&&◌, List, [], ◌∷◌, ◌++◌, map, replicate,
}

-- `buffer_id_t`
pub data BufferId : Type 0 where
  buffer_a buffer_b : BufferId

abbrev pub to_int : BufferId → ℕ
to_int buffer_a = 0
to_int buffer_b = 1

abbrev pub of_int : ℕ → BufferId
of_int zero = buffer_a
of_int (suc n) = buffer_b

-- `m_current_buffer` of one thread, and whether a call of `flip` is on its way to it
pub record Reader : Type 0 where
  pub current : BufferId
  pub pending : Bool

-- `flip_internal`
unfoldable pub flip_internal : Reader → Reader
flip_internal r = record { current = of_int ((to_int r.current + 1) % 2); pending = false }

-- `broadcast_local_sync<flip>`: a call to every thread.
abbrev pub broadcast : List Reader → List Reader
broadcast [] = []
broadcast (r ∷ rs) = record r { pending = true } ∷ broadcast rs

abbrev pub all_flipped : List Reader → Bool
all_flipped [] = true
all_flipped (r ∷ rs) = not r.pending && all_flipped rs

-- Where `apply_write` is: not running; writing to the new buffer; waiting for the flips; copying to the old.
pub data Phase (A : Type 0) : Type 0 where
  idle : Phase A
  writing : BufferId → (A → A) → Phase A
  flipping copying : BufferId → Phase A

pub record FlipBuffer (A : Type 0) : Type 0 where
  pub value_a : A
  pub value_b : A
  pub readers : List Reader
  pub phase : Phase A

-- The choice of the two buffers in `apply_write`
abbrev pub other_of : BufferId → BufferId
other_of buffer_a = buffer_b
other_of buffer_b = buffer_a

module _ {A : Type 0} where
  -- `flip_buffer_t(args)`, with so many threads
  unfoldable pub create : ℕ → A → FlipBuffer A
  create threads value = record {
    value_a = value;
    value_b = value;
    readers = replicate threads (record { current = buffer_a; pending = false });
    phase = idle;
  }

  abbrev pub buffer : BufferId → FlipBuffer A → A
  buffer buffer_a f = f.value_a
  buffer buffer_b f = f.value_b

  abbrev pub put : BufferId → A → FlipBuffer A → FlipBuffer A
  put buffer_a value f = record f { value_a = value }
  put buffer_b value f = record f { value_b = value }

  -- `active_buffer`, which `apply_read` gives to its callback
  unfoldable pub active_buffer : Reader → FlipBuffer A → A
  active_buffer r f = buffer r.current f

  -- The parts of `apply_write`: the choice of the buffers by the thread `r`, the callback, the flip, and the copy.
  unfoldable pub choose : Reader → (A → A) → FlipBuffer A → FlipBuffer A
  choose r cb f = record f { phase = writing (other_of r.current) cb }

  unfoldable pub write : BufferId → (A → A) → FlipBuffer A → FlipBuffer A
  write target cb f = record (put target (cb (buffer target f)) f) {
    readers = broadcast f.readers;
    phase = flipping target;
  }

  unfoldable pub copy : BufferId → FlipBuffer A → FlipBuffer A
  copy target f = record (put (other_of target) (buffer target f) f) { phase = idle }

  pub data Step (f g : FlipBuffer A) : Type 0 where
    writes :
        (target : BufferId) (cb : A → A)
        → f.phase ≡ writing target cb
        → g ≡ write target cb f
        → Step f g
    flips :
        (xs ys : List Reader) (r : Reader)
        → f.readers ≡ xs ++ r ∷ ys
        → r.pending ≡ true
        → g ≡ record f { readers = xs ++ flip_internal r ∷ ys }
        → Step f g
    waits :
        (target : BufferId)
        → f.phase ≡ flipping target
        → all_flipped f.readers ≡ true
        → g ≡ record f { phase = copying target }
        → Step f g
    copies : (target : BufferId) → f.phase ≡ copying target → g ≡ copy target f → Step f g

  -- What can be reached from a new buffer, with the callbacks that were begun, the last one first.
  pub data Reach (threads : ℕ) (value : A) : List (A → A) → FlipBuffer A → Type 0 where
    start : Reach threads value [] (create threads value)
    begins :
        {cbs : List (A → A)} {f g : FlipBuffer A}
        → Reach threads value cbs f
        → (xs ys : List Reader) (r : Reader) (cb : A → A) → f.phase ≡ idle
        → f.readers ≡ xs ++ r ∷ ys
        → g ≡ choose r cb f
        → Reach threads value (cb ∷ cbs) g
    next :
        {cbs : List (A → A)} {f g : FlipBuffer A}
        → Reach threads value cbs f
        → Step f g
        → Reach threads value cbs g
