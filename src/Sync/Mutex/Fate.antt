-- ===== src/Sync/Mutex/Fate.antt =====
-- src/sync/mutex.cc: what becomes of every waiter when an acquisition is destroyed, or moved.
use indecorous.Base.{
  ℕ, ◌≡◌, false, Option, none, some, List, [], ◌∷◌, ◌++◌, append-nil, ok, ◌==◌, ==_refl, All, Among,
}
use indecorous.Sync.WaitObject.{success, object_lost, WaitResult, Notice, notices}
use indecorous.Sync.Mutex.{Lock, Mutex, has, ready_front, release_lock, destroy, move_acq}

-- The callbacks `ws` are all told `result` in the log.
abbrev pub Told : WaitResult → List Notice → List ℕ → Type 0
Told result log ws = All (λ cb. Among (cb, result) log) ws

abbrev pub front : List Lock → Option Lock
front [] = none
front (l ∷ rest) = some l

abbrev pub behind : List Lock → List Lock
behind [] = []
behind (l ∷ rest) = rest

-- What `destroy id` makes of the acquisition `l` of the mutex `m`: it held the mutex and still does, as it was;
-- or it is behind the holder, as it was; or it holds the mutex now, and its waiters are told and unlinked; or
-- it is the one destroyed, and its waiters are told that.
pub data Fate (id : ℕ) (m t : Mutex) (l : Lock) : Type 0 where
  kept : front m.locks ≡ some l → front t.locks ≡ some l → Fate id m t l
  queued : Among l (behind t.locks) → Fate id m t l
  granted :
      front t.locks ≡ some (record l { waiters = [] })
      → Told success t.woken l.waiters
      → Fate id m t l
  lost : l.id ≡ id → Told object_lost t.woken l.waiters → Fate id m t l

-- What `destroy` leaves, for the acquisition `l` that it destroys.
abbrev left_by : ℕ → Mutex → Lock → Mutex
left_by id m l = record (release_lock id m) {
  woken = (release_lock id m).woken ++ notices object_lost l.waiters;
}

-- Moving an acquisition that waits behind the holder forgets its waiters: when the holder is destroyed,
-- nobody but the holder's own waiters is told anything, and the moved acquisition has no waiters left.
pub destroy-move_acq :
    (id other : ℕ) (m : Mutex) (holder l : Lock)
    → m.locks ≡ holder ∷ l ∷ []
    → l.id ≡ other
    → (holder.id == other) ≡ false
    → destroy holder.id (move_acq id other m)
      ≡ ok (record {
        locks = record { id = id; waiters = [] } ∷ [];
        woken = m.woken ++ notices object_lost holder.waiters;
      })
unfolding destroy move_acq release_lock ready_front has
destroy-move_acq id other m holder l e there apart =
    rw (e, there, apart, ==_refl other, destroy, ==_refl holder.id)
      (rw (
        e,
        move_acq,
        there,
        apart,
        ==_refl other,
        release_lock,
        ==_refl holder.id,
        append-nil m.woken,
      ))
