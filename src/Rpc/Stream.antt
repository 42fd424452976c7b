-- ===== src/Rpc/Stream.antt =====
-- src/rpc/stream.hpp and stream.cc: `local_stream_t`, and `io_stream_t` where they differ. A message is the
-- address of its buffer. `value` is the counter of the eventfd, which a `::write` of 1 raises, and which
-- stays below the largest word. A write to a stream is three steps, of which the first two are those of
-- `mpsc_queue_t::push`; between two steps any thread may take one. A read of the queue is one step.
pub mod Heard
pub mod Overtaken
use indecorous.Base.{
  ℕ, ◌+◌, ◌-◌, ◌≡◌, Bool, true, false, Option, none, some, List, [], ◌∷◌, ◌++◌, Result, ok, err,
  guarantee, require, ◌>>=◌, ◌>>◌, ◌==◌, if◌then◌else◌,
}
use indecorous.Containers.Mpsc
use indecorous.Containers.Mpsc.{Mpsc, push, set_next, stub}
use indecorous.Containers.Mpsc.Pop.{pop, is_none}

pub record Stream : Type 0 where
  pub queue : Mpsc
  pub value : ℕ

-- `local_stream_t()`
unfoldable pub create : Stream
create = record { queue = Mpsc.create; value = 0 }

-- The steps of `write`
unfoldable pub write_push : ℕ → Stream → Stream
write_push message s = record s { queue = push message s.queue }

unfoldable pub write_link : ℕ → ℕ → Stream → Stream
write_link prev message s = record s { queue = set_next prev message s.queue }

unfoldable pub signal : Stream → Stream
signal s = record s { value = s.value + 1 }

-- `local_stream_t::read`: `none` is the empty message.
unfoldable pub read : Stream → Result (Option ℕ × Stream)
read s = do (message, queue) ← pop s.queue; ok (message, record s { queue = queue })

-- `local_stream_t::wait`: `none` is a wait that goes on.
unfoldable pub wait : Stream → Option Stream
wait s = if s.value == 0 then none else some (record s { value = 0 })

-- `GUARANTEE(raw_buffer != nullptr)`
abbrev pub guaranteed : Option ℕ → Stream → Result (Option (ℕ × Stream))
guaranteed none s = err guarantee
guaranteed (some message) s = ok (some (message, s))

abbrev pub pop_io : Stream → Result (Option (ℕ × Stream))
pop_io s = do (message, queue) ← pop s.queue; guaranteed message (record s { queue = queue })

-- `io_stream_t::read`, of an eventfd that is a semaphore: `none` is a wait that goes on.
unfoldable pub read_io : Stream → Result (Option (ℕ × Stream))
read_io s = if s.value == 0 then ok none else pop_io (record s { value = s.value - 1 })

-- The steps of the threads on a `local_stream_t`, with the messages the writers of which have not signalled
-- yet, and whether the last call of the reader was a `read` that found nothing.
pub data Reach : List ℕ → Bool → Stream → Type 0 where
  creates : Reach [] false create
  pushes :
      (message : ℕ) {writers : List ℕ} {empty : Bool} {s : Stream}
      → Reach writers empty s
      → ¬ (message ≡ stub)
      → ¬ (message ≡ s.queue.front)
      → ((x : ℕ) → ¬ (s.queue.link x ≡ some message))
      → ((x : ℕ) → ¬ (s.queue.writes x ≡ some message))
      → Reach (message ∷ writers) empty (write_push message s)
  links :
      (prev message : ℕ) {writers : List ℕ} {empty : Bool} {s : Stream}
      → Reach writers empty s
      → s.queue.writes prev ≡ some message
      → Reach writers empty (write_link prev message s)
  signals :
      (before after : List ℕ) (message : ℕ) {empty : Bool} {s : Stream}
      → Reach (before ++ message ∷ after) empty s
      → ((x : ℕ) → ¬ (s.queue.writes x ≡ some message))
      → Reach (before ++ after) empty (signal s)
  reads :
      (found : Option ℕ) {writers : List ℕ} {empty : Bool} {s t : Stream}
      → Reach writers empty s
      → read s ≡ ok (found, t)
      → Reach writers (is_none found) t
  waits :
      {writers : List ℕ} {s t : Stream}
      → Reach writers true s
      → wait s ≡ some t
      → Reach writers false t
