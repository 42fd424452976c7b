-- ===== src/Lib.antt =====
-- A verification library for indecorous, a C++ library of coroutines, remote calls and the objects
-- that coroutines wait on.
--
-- The program. Messages (rpc/message.cc) carry calls between threads: `write_message_t::create` sizes
-- the arguments, allocates a buffer (containers/buffer.hpp) for a header and for them, and writes both
-- through the serializers (rpc/serialize.hpp, serialize.cc, serialize_macros.hpp, and
-- serialize_stl.hpp for the standard containers); `read_message_t::parse` reads the header back, and the
-- handler of the call reads the arguments. Coroutines meet at waitable objects (sync/wait_object.hpp),
-- of which semaphores (sync/semaphore.cc) and promises (sync/promise.tcc) keep the most state. Threads meet
-- at a barrier (coro/barrier.cc), a mutex between threads (cross_thread/ct_mutex.cc) and the flip buffer that
-- stands on it (cross_thread/flip_buffer.hpp); files and connections are under io/.
--
-- Where it is modelled (paths from src/ of the repository).
-- - Base: the libraries' names, lists over native numbers, Boolean tests, and `Result`: a value, or
--   the fault that stops the program (a failed assertion, a failed guarantee, undefined behaviour).
--   Assertions are modelled as in a debug build.
-- - Containers.Buffer: containers/buffer.hpp. A buffer is its capacity and its bytes. What `new`
--   finds in memory is a parameter.
-- - Rpc.Wire: a message under construction and one that is read, byte by byte (rpc/message.cc).
-- - Rpc.Serializer, Rpc.Integral, Rpc.Stl: a `serializer_t<T>` is a record of `size`, `write` and
--   `read`; `IsLawful` is the contract that the rest relies on. Values are byte patterns: a signed
--   integer is the number its bytes hold, most significant first. `float` and `double` are left out.
--   A tree is the list that iterating over it visits, and so is a hash table, whose order is a
--   parameter. Sizes are not reduced modulo 2 ^ 64: they are those of objects in memory.
-- - Rpc.Message: the header, `create` and `parse` (rpc/message.cc). `parse(tcp_stream_t *)` is left out:
--   the reads that it needs are empty in io/tcp.cc. Rpc.Exchange: values sent on their own.
-- - Rpc.Hub: the tables of rpc/hub.cc: `new_request` and `spawn_task`.
-- - Sync.WaitObject, Sync.Semaphore: an acquisition is a record with the address of its object, a
--   semaphore has the two lists of them and a log of the callbacks that were run. Counts are `size_t`,
--   and sums wrap at 2 ^ 64. A callback is a number: what the callbacks do then is not modelled.
-- - Containers.Intrusive: containers/intrusive.hpp in a heap of nodes; `Holds` says which list the
--   nodes form. The other components have the list itself in place of the nodes.
-- - Containers.Mpsc: `mpsc_queue_t` of the same file, with the accesses to shared memory as steps.
-- - Containers.Arena: containers/arena.hpp, by counts and the list of free nodes.
-- - Sync.Time, Coro.TimerList, Sync.SingleTimer: times, the timers of a thread and a timer that is waited
--   on (sync/timer.cc, coro/events.cc). The clock is an argument. `uint64_t` and the narrowing to `int`
--   wrap round; sums of `int64_t` do not, and the theorems stay below 2 ^ 53 seconds.
-- - Sync.Mutex, Sync.Event, Sync.MultipleWait, Sync.Drainer: the files of these names in sync/. In each a
--   callback is a number, and the log has what it was told.
-- - Sync.Interruptor: the interruptors of one coroutine (sync/interruptor.cc, and the list in coro/coro.cc), the
--   outermost first; the last is destroyed first, as coro/coro.cc asserts.
-- - Sync.Promise, Sync.PromiseVoid: `promise_data_t` of sync/promise.tcc and promise.cc, with its futures.
--   A chained callback is a number, and its `handle` an entry of the log: the promise that the callback's
--   result goes to is not modelled. The memory of `m_value` is there while the state is `fulfilled`.
-- - Sync.PeriodicTimer: `periodic_timer_t`, and in Sync.Time.Periodic the loop of `update_periodic`.
-- - Coro.Barrier: coro/barrier.cc. The threads are a list; what runs under the lock is a step.
-- - Coro.Dispatcher: `dispatcher_t`, `coro_cache_t` and the switches of coro/coro.cc. A context switch is a
--   jump to the point where the other side goes on; what a coroutine does between its calls is left open, so
--   a history is any order of calls. Coro.FileEvents: the file waits of coro/events.cc, over an epoll set that
--   is a parameter with the documented laws of `epoll_ctl`.
-- - Rpc.Stream: `local_stream_t` and `io_stream_t` of rpc/stream.cc, over Containers.Mpsc. The steps of a write
--   may interleave with all others; a `pop` is one step there.
-- - Coro.Shutdown: `shutdown_t` of coro/shutdown.cc, with the messages as a list. Coro.Shutdown.Ledger is the
--   account of the tasks that its callers keep.
-- - CrossThread.FlipBuffer: cross_thread/flip_buffer.hpp. The parts of a write and each thread's flip are
--   steps; that one write runs at a time is the work of the mutex.
-- - Io.FileCalls: the loops of io/file.cc, over a system call that is a parameter. Io.Tcp: the reads of
--   io/tcp.cc, with `peek` (Io.Tcp.Peek), and `write` (Io.Tcp.Ends), over a socket that is a parameter, with
--   the bytes that it will bring or has been given and the laws of `::read` and `::write` where they do not
--   fail.
-- - CrossThread.CtMutex: cross_thread/ct_mutex.cc. What runs under the spinlock is a step, and so are the
--   call of `ready()`, and the sending and the arrival of a `notify` call; a history is any order of the
--   threads' steps.
-- - Random: random.cc. The words of the generator are a parameter.
-- - Tests: runs at concrete inputs.
--
-- Loops are structural recursion on the list or on the count that they go through. The loops on fuel: that of
-- `fill_internal` has the length of the buffer for it, and its index grows in every round. Those of
-- `update_periodic`, of the file calls and of a connection take any fuel, and give `none` or `goes_on` where
-- they have not ended; theorems say how much is enough: the distance to the clock in periods, as many rounds
-- as there are bytes to peek or to write, and one more than the bytes to read.
-- Not modelled: system calls, context switches, threads, and the vendored libraries.
pub mod Base
pub mod Containers
pub mod Rpc
pub mod Sync
pub mod CrossThread
pub mod Io
pub mod Coro
pub mod Random
pub mod Tests
