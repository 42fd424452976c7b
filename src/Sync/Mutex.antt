-- ===== src/Sync/Mutex.antt =====
-- src/sync/mutex.hpp and mutex.cc. An acquisition (`mutex_acq_t`) is the address of its object with the
-- callbacks that wait on it; the front of the list holds the mutex. An acquisition that is linked has
-- this mutex as its parent.
pub mod Handover
pub mod Fate
pub mod Ledger
use indecorous.Base.{
  ℕ, Bool, true, false, Option, none, some, List, [], ◌∷◌, ◌++◌, Result, ok, err, undefined, ◌==◌,
  if◌then◌else◌,
}
use indecorous.Sync.WaitObject.{success, object_lost, Notice, notices}

-- `mutex_acq_t`
pub record Lock : Type 0 where
  pub id : ℕ
  pub waiters : List ℕ

-- `mutex_t`, with the log of the callbacks that were run.
pub record Mutex : Type 0 where
  pub locks : List Lock
  pub woken : List Notice

abbrev pub find : ℕ → List Lock → Option Lock
find id [] = none
find id (l ∷ rest) = if l.id == id then some l else find id rest

-- The intrusive list's `remove`.
abbrev pub erase : ℕ → List Lock → List Lock
erase id [] = []
erase id (l ∷ rest) = if l.id == id then rest else l ∷ erase id rest

-- A change of the linked object with address `id`.
abbrev pub update : ℕ → (Lock → Lock) → List Lock → List Lock
update id f [] = []
update id f (l ∷ rest) = if l.id == id then f l ∷ rest else l ∷ update id f rest

-- `mutex_t()`
unfoldable pub create : Mutex
create = record { locks = []; woken = [] }

-- `start_acq`: the acquisition goes to the back of the list.
unfoldable pub start_acq : ℕ → Mutex → Mutex
start_acq id m = record m { locks = m.locks ++ record { id = id; waiters = [] } ∷ [] }

-- `mutex_acq_t::has`
unfoldable pub has : ℕ → List Lock → Bool
has id [] = false
has id (l ∷ rest) = l.id == id

-- `mutex_acq_t::ready` of the front, if there is one.
unfoldable pub ready_front : Mutex → List Lock → Mutex
ready_front m [] = record m { locks = [] }
ready_front m (l ∷ rest) = record m {
  locks = record l { waiters = [] } ∷ rest;
  woken = m.woken ++ notices success l.waiters;
}

-- `release_lock`
unfoldable pub release_lock : ℕ → Mutex → Mutex
unfolding ready_front has
release_lock id m =
    if has id m.locks
    then ready_front m (erase id m.locks)
    else record m { locks = erase id m.locks }

-- `~mutex_acq_t` of an acquisition that is linked.
unfoldable pub destroy : ℕ → Mutex → Result Mutex
unfolding release_lock
destroy id m = elim (find id m.locks) [
  | none ↦ err undefined
  | some l ↦
      let released = release_lock id m in
      ok (record released { woken = released.woken ++ notices object_lost l.waiters })
]

-- `mutex_acq_t::add_wait`
unfoldable pub add_wait : ℕ → ℕ → Mutex → Mutex
unfolding has
add_wait id cb m =
    if has id m.locks
    then record m { woken = m.woken ++ (cb, success) ∷ [] }
    else record m { locks = update id (λ l. record l { waiters = l.waiters ++ cb ∷ [] }) m.locks }

-- Unlinking a callback.
abbrev pub unlink : ℕ → List ℕ → List ℕ
unlink cb [] = []
unlink cb (w ∷ ws) = if w == cb then ws else w ∷ unlink cb ws

-- `mutex_acq_t::remove_wait`
unfoldable pub remove_wait : ℕ → ℕ → Mutex → Mutex
remove_wait id cb m = record m {
  locks = update id (λ l. record l { waiters = unlink cb l.waiters }) m.locks;
}

-- `mutex_acq_t(mutex_acq_t &&other)`: the new object takes the place in the list. The callbacks are
-- unlinked while they are told of the move.
unfoldable pub move_acq : ℕ → ℕ → Mutex → Mutex
move_acq id other m = record m {
  locks = update other (λ l. record l { id = id; waiters = [] }) m.locks;
}

abbrev pub all_lost : List Lock → List Notice
all_lost [] = []
all_lost (l ∷ rest) = notices object_lost l.waiters ++ all_lost rest

-- `~mutex_t`: what is left of it is the log.
unfoldable pub destroy_mutex : Mutex → Mutex
destroy_mutex m = record { locks = []; woken = m.woken ++ all_lost m.locks }
