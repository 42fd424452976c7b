-- ===== src/Coro/Dispatcher.antt =====
-- src/coro/coro.hpp and coro.cc: `dispatcher_t`, which gives the thread to one coroutine after another, with
-- `coro_cache_t` and the calls of `coro_t` that swap. A coroutine is a number. An operation is what runs on
-- the thread from one call of a coroutine up to the point where a coroutine, or the thread's main context,
-- runs its own code again: a context switch goes to the code that the other side's `point` names.
pub mod Places
pub mod Switches
pub mod Calls
pub mod Spawns
pub mod Slices
pub mod History
use indecorous.Base.{
  at, ℕ, zero, suc, ◌+◌, ◌-◌, ◌%◌, ◌^◌, Bool, true, false, not, ◌||◌, Option, none, some, List, [],
  ◌∷◌, ◌++◌, length, Result, err, ok, undefined, assert, ◌>>=◌, ◌>>◌, ◌==◌, ltb, leb, if◌then◌else◌,
}
use indecorous.Sync.WaitObject.{WaitResult, success}

-- Where a coroutine goes on when it is switched to: nowhere, at `run_initial_coro`, at `launch_coro` with the
-- parent of a start of type `Immediate`, or in `swap` behind the switch.
pub data Point : Type 0 where
  nowhere initially swapped : Point
  launching : Option ℕ → Point

-- `dispatcher_t`, its cache, and of each coroutine the point and `m_wait_result`. `made` counts the calls of
-- `new coro_t`, each of which gives the next number. `updates` are the calls of `m_shutdown->update`; `queued`
-- and `popped` are the coroutines that went into the run queue and came out of it, the oldest first.
pub record Dispatcher : Type 0 where
  pub swap_permitted : Bool
  pub max_cache_size : ℕ
  pub extant : ℕ
  pub cache : List ℕ
  pub made : ℕ
  pub run_queue : List ℕ
  pub running : Option ℕ
  pub to_release : Option ℕ
  pub swap_count : ℕ
  pub coro_delta : ℕ
  pub point : ℕ → Point
  pub wait_result : ℕ → WaitResult
  pub updates : List ℕ
  pub queued : List ℕ
  pub popped : List ℕ

-- `s_max_swaps_per_loop`
abbrev pub max_swaps_per_loop : ℕ
max_swaps_per_loop = 100

-- The `int64_t` of `m_coro_delta` is the word of its bits.
abbrev pub word : ℕ
word = 2 ^ 64

-- `round_size_up`: the sum of `size_t` wraps.
unfoldable pub round_size_up : ℕ → ℕ → Result ℕ
round_size_up minimum_size multiple = do
  assert (not (multiple == 0))
  let remainder = minimum_size % multiple
  ok (if remainder == 0 then minimum_size else (minimum_size + multiple - remainder) % word)

abbrev pub is_none {ℓ} : {A : Type ℓ} → Option A → Bool
is_none none = true
is_none (some a) = false

abbrev pub has : ℕ → List ℕ → Bool
has c [] = false
has c (x ∷ xs) = (c == x) || has c xs

-- `in_a_list`
abbrev pub in_a_list : ℕ → Dispatcher → Bool
in_a_list c d = has c d.run_queue || has c d.cache

-- `coro_cache_t::get`
abbrev pub get_from : List ℕ → Dispatcher → ℕ × Dispatcher
get_from [] d = (d.made, record d { extant = 1 + d.extant; made = 1 + d.made })
get_from (c ∷ rest) d = (c, record d { extant = 1 + d.extant; cache = rest })

unfoldable pub get : Dispatcher → ℕ × Dispatcher
get d = get_from d.cache d

-- `coro_cache_t::release`
unfoldable pub release : ℕ → Dispatcher → Result Dispatcher
release c d = do
  assert (not (in_a_list c d))
  let cache = if leb d.max_cache_size (length d.cache) then d.cache else c ∷ d.cache
  ok (record d { extant = d.extant - 1; cache = cache })

-- `m_run_queue.push_back`
abbrev pub push_back : ℕ → Dispatcher → Dispatcher
push_back c d = record d { run_queue = d.run_queue ++ c ∷ []; queued = d.queued ++ c ∷ [] }

-- `dispatcher_t(shutdown, initial_fn)`
unfoldable pub create : ℕ → Dispatcher
create max_cache_size = push_back 0 record {
  swap_permitted = true;
  max_cache_size = max_cache_size;
  extant = 1;
  cache = [];
  made = 1;
  run_queue = [];
  running = none;
  to_release = none;
  swap_count = 0;
  coro_delta = 0;
  point = at 0 initially (λ c. nowhere);
  wait_result = λ c. success;
  updates = [];
  queued = [];
  popped = [];
}

-- What every side of a switch does first: the coroutine that has ended goes back to the cache.
abbrev pub release_ended : Option ℕ → Dispatcher → Result Dispatcher
release_ended none d = ok d
release_ended (some c) d = do released ← release c d; ok (record released { to_release = none })

-- `launch_coro`, up to the call of the hook
abbrev pub queue_parent : Option ℕ → Dispatcher → Dispatcher
queue_parent none d = d
queue_parent (some parent) d = push_back parent d

-- Where the coroutine goes on: `run_initial_coro`, `launch_coro`, or the end of `swap`. The result of the
-- wait goes to `check_wait_result`, which may throw it.
abbrev pub continue : Point → ℕ → Dispatcher → Result Dispatcher
continue nowhere c d = err undefined
continue initially c d = ok d
continue (launching parent) c d = do
  released ← release_ended d.to_release d
  ok (queue_parent parent released)
continue swapped c d = do
  released ← release_ended d.to_release d
  ok (record released { wait_result = at c success released.wait_result })

-- A switch to a coroutine
unfoldable pub switch_to : ℕ → Dispatcher → Result Dispatcher
unfolding release
switch_to c d = continue (d.point c) c (record d { running = some c })

-- A switch to the main context, which goes on at the end of `run`
unfoldable pub switch_to_main : Dispatcher → Result Dispatcher
unfolding release
switch_to_main d = do
  released ← release_ended d.to_release (record d { running = none })
  assert (is_none released.running)
  let updates = if released.coro_delta == 0 then [] else released.coro_delta ∷ []
  ok (record released { updates = released.updates ++ updates })

-- The front of the run queue, or the main context
abbrev pub pop_front : List ℕ → Dispatcher → Result Dispatcher
pop_front [] d = switch_to_main d
pop_front (c ∷ rest) d = switch_to c (record d { run_queue = rest; popped = d.popped ++ c ∷ [] })

-- `dispatcher_t::run`, up to the first coroutine
unfoldable pub run : Dispatcher → Result Dispatcher
unfolding switch_to switch_to_main
run d = do
  assert (is_none d.running)
  pop_front d.run_queue (record d { swap_count = 0; coro_delta = 0 })

abbrev pub swap_next : Option ℕ → Dispatcher → Result Dispatcher
swap_next (some c) d = switch_to c d
swap_next none d =
    if leb max_swaps_per_loop d.swap_count then switch_to_main d else pop_front d.run_queue d

-- `coro_t::swap`, called by the running coroutine `self`
unfoldable pub swap : ℕ → Option ℕ → Dispatcher → Result Dispatcher
unfolding switch_to switch_to_main
swap self next d = do
  assert d.swap_permitted
  swap_next next (record d { swap_count = 1 + d.swap_count; point = at self swapped d.point })

-- `coro_t::wait`
unfoldable pub wait : ℕ → Dispatcher → Result Dispatcher
unfolding swap
wait self d = swap self none d

-- `coro_t::yield`
unfoldable pub yield_ : ℕ → Dispatcher → Result Dispatcher
unfolding swap
yield_ self d = swap self none (push_back self d)

-- `coro_t::notify`
unfoldable pub notify : ℕ → WaitResult → Dispatcher → Result Dispatcher
notify c result d = do
  assert (not (in_a_list c d))
  let queued = push_back c d
  ok (record queued { wait_result = at c result queued.wait_result })

-- `dispatcher_t::note_new_task` and `note_accepted_task`
unfoldable pub note_new_task : Dispatcher → Dispatcher
note_new_task d = record d { coro_delta = (d.coro_delta + 1) % word }

unfoldable pub note_accepted_task : Dispatcher → Dispatcher
note_accepted_task d = record d { coro_delta = (d.coro_delta + (word - 1)) % word }

-- `spawn_type_t`
pub data SpawnType : Type 0 where
  immediate detached delayed : SpawnType

-- The end of `coro_t::spawn_internal`
abbrev pub start : SpawnType → ℕ → ℕ → Dispatcher → Result Dispatcher
start immediate self c d =
    swap self (some c) (record d { point = at c (launching (some self)) d.point })
start detached self c d = ok (push_back c (record d { point = at c (launching none) d.point }))
start delayed self c d = ok (push_back c (record d { point = at c (launching none) d.point }))

-- `coro_t::spawn_internal`, with `create` and `begin`
unfoldable pub spawn : SpawnType → ℕ → Dispatcher → Result Dispatcher
unfolding get note_new_task swap
spawn type self d = let (c, got) = get d in start type self c (note_new_task got)

-- `dispatcher_t::enqueue_release`
abbrev pub enqueue_release : ℕ → Dispatcher → Result Dispatcher
enqueue_release self d = do
  assert (is_none d.to_release)
  ok (record d { to_release = some self; coro_delta = (d.coro_delta + (word - 1)) % word })

-- The end of `launch_coro` and of `run_initial_coro`
unfoldable pub finish : ℕ → Dispatcher → Result Dispatcher
unfolding swap
finish self d = do ended ← enqueue_release self d; swap self none ended

-- `~dispatcher_t()`
unfoldable pub destroy : Dispatcher → Result (Unit {0})
destroy d = do assert (is_none d.running); assert (length d.run_queue == 0); assert (d.extant == 0)
