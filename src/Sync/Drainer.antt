-- ===== src/Sync/Drainer.antt =====
-- src/sync/drainer.hpp and drainer.cc: `drainer_t` and its locks, with the log of the callbacks that were
-- run. A lock is the address of its object with the callbacks that wait on it; it is also one of the
-- drainer's own callbacks, for the start of the draining.
pub mod Draining
use indecorous.Base.{
  ℕ, Bool, true, false, Option, none, some, List, [], ◌∷◌, ◌++◌, map, Result, ok, err, undefined,
  assert, not, ◌>>=◌, ◌>>◌, ◌==◌, if◌then◌else◌,
}
use indecorous.Sync.WaitObject.{WaitResult, success, interrupted, object_lost, Notice, notices}

-- `drainer_lock_t` with a drainer as its parent
pub record DrainLock : Type 0 where
  pub id : ℕ
  pub waiters : List ℕ

-- What waits for the draining to start: a lock, or some other callback.
pub data StartWaiter : Type 0 where
  lock_of : ℕ → StartWaiter
  other : ℕ → StartWaiter

-- `drainer_t`
pub record Drainer : Type 0 where
  pub locks : List DrainLock
  pub start_waiters : List StartWaiter
  pub finish_waiters : List ℕ
  pub draining : Bool
  pub woken : List Notice

-- `drainer_t()`
unfoldable pub create : Drainer
create = record {
  locks = [];
  start_waiters = [];
  finish_waiters = [];
  draining = false;
  woken = [];
}

abbrev pub find : ℕ → List DrainLock → Option DrainLock
find id [] = none
find id (l ∷ rest) = if l.id == id then some l else find id rest

abbrev pub erase : ℕ → List DrainLock → List DrainLock
erase id [] = []
erase id (l ∷ rest) = if l.id == id then rest else l ∷ erase id rest

abbrev pub update : ℕ → (DrainLock → DrainLock) → List DrainLock → List DrainLock
update id f [] = []
update id f (l ∷ rest) = if l.id == id then f l ∷ rest else l ∷ update id f rest

abbrev pub forget : ℕ → List StartWaiter → List StartWaiter
forget id [] = []
forget id (other cb ∷ rest) = other cb ∷ forget id rest
forget id (lock_of k ∷ rest) = if k == id then rest else lock_of k ∷ forget id rest

-- `drainer_t::add_wait` of a callback that is no lock
unfoldable pub add_wait : ℕ → Drainer → Drainer
add_wait cb d =
    if d.draining
    then record d { woken = d.woken ++ (cb, success) ∷ [] }
    else record d { start_waiters = d.start_waiters ++ other cb ∷ [] }

-- `drainer_t::lock`: `add_lock`, which wants no draining, and `add_wait` of the lock.
unfoldable pub lock : ℕ → Drainer → Result Drainer
lock id d = do
  assert (not d.draining)
  ok (record d {
    locks = d.locks ++ record { id = id; waiters = [] } ∷ [];
    start_waiters = d.start_waiters ++ lock_of id ∷ [];
  })

-- `drainer_lock_t::add_wait`
unfoldable pub add_lock_wait : ℕ → ℕ → Drainer → Drainer
add_lock_wait id cb d =
    if d.draining
    then record d { woken = d.woken ++ (cb, success) ∷ [] }
    else record d { locks = update id (λ l. record l { waiters = l.waiters ++ cb ∷ [] }) d.locks }

-- `drainer_lock_t::wait_done`: the waiters of the lock are told.
unfoldable pub wait_done : ℕ → Drainer → Drainer
wait_done id d = elim (find id d.locks) [
  | none ↦ d
  | some l ↦ record d {
    locks = update id (λ k. record k { waiters = [] }) d.locks;
    woken = d.woken ++ notices success l.waiters;
  }
]

-- `m_start_drain_waiters.clear(...)`: each one is told, in order.
unfoldable pub tell_started : List StartWaiter → Drainer → Drainer
unfolding wait_done
tell_started [] d = d
tell_started (other cb ∷ rest) d =
    tell_started rest (record d { woken = d.woken ++ (cb, success) ∷ [] })
tell_started (lock_of id ∷ rest) d = tell_started rest (wait_done id d)

abbrev no_locks : List DrainLock → Bool
no_locks [] = true
no_locks (l ∷ rest) = false

-- `drainer_t::drain` by the coroutine `self`, up to where it waits, if there are locks.
unfoldable pub drain : ℕ → Drainer → Drainer
unfolding tell_started
drain self d =
    let started = tell_started d.start_waiters (record d { draining = true; start_waiters = [] }) in
    if no_locks started.locks
    then started
    else record started { finish_waiters = started.finish_waiters ++ self ∷ [] }

-- `remove_lock`: the last one to go tells those who wait for the end of the draining.
unfoldable pub remove_lock : ℕ → Drainer → Drainer
remove_lock id d =
    let left = erase id d.locks in
    if d.draining
    then (if no_locks left
        then record d {
          locks = left;
          finish_waiters = [];
          woken = d.woken ++ notices success d.finish_waiters;
        }
        else record d { locks = left })
    else record d { locks = left }

-- `~drainer_lock_t`
unfoldable pub destroy_lock : ℕ → Drainer → Result Drainer
unfolding remove_lock
destroy_lock id d = elim (find id d.locks) [
  | none ↦ err undefined
  | some l ↦
      let told = record d { woken = d.woken ++ notices success l.waiters } in
      let removed = remove_lock id told in
      ok (record removed { start_waiters = forget id removed.start_waiters })
]
