-- ===== src/Sync/Semaphore/History.antt =====
-- src/sync/semaphore.cc: every history of a semaphore keeps it valid.
use indecorous.Base.{ℕ, ◌+◌, ◌<◌, ◌≡◌, ◌≢◌, sym, ok, subst}
use indecorous.Sync.Semaphore.{
  Semaphore, create, start_acq, release, destroy, extend, remove, combine, add_wait, word,
}
use indecorous.Sync.Semaphore.Conservation.{
  IsValid, create-IsValid, start_acq-IsValid, release-IsValid,
}
use indecorous.Sync.Semaphore.Calls.{destroy-IsValid, extend-IsValid, remove-IsValid}
use indecorous.Sync.Semaphore.Joins.{combine-IsValid, add_wait-IsValid}

-- A call on a semaphore, or on an acquisition of it, that does not fail. A capacity that would wrap
-- round is excluded, and an acquisition is not combined with itself.
pub data Step (s t : Semaphore) : Type 0 where
  starts : (id count : ℕ) → t ≡ start_acq id count s → Step s t
  releases : (id count : ℕ) → release id count s ≡ ok t → Step s t
  destroys : (id : ℕ) → destroy id s ≡ ok t → Step s t
  extends : (count : ℕ) → s.capacity + count < word → extend count s ≡ ok t → Step s t
  removes : (id : ℕ) → remove id s ≡ ok t → Step s t
  combines : (id other : ℕ) → id ≢ other → combine id other s ≡ ok t → Step s t
  waits : (id cb : ℕ) → add_wait id cb s ≡ ok t → Step s t

pub data Reach (s : Semaphore) : Semaphore → Type 0 where
  here : Reach s s
  next : {t u : Semaphore} → Reach s t → Step t u → Reach s u

pub Step-IsValid : {s t : Semaphore} → IsValid s → Step s t → IsValid t
Step-IsValid {s} v (starts id count e) = subst IsValid (sym e) (start_acq-IsValid id count s v)
Step-IsValid {s} {t} v (releases id count e) = release-IsValid id count s t v e
Step-IsValid {s} {t} v (destroys id e) = destroy-IsValid id s t v e
Step-IsValid {s} {t} v (extends count fits e) = extend-IsValid count s t v fits e
Step-IsValid {s} {t} v (removes id e) = remove-IsValid id s t v e
Step-IsValid {s} {t} v (combines id other d e) = combine-IsValid id other s t v d e
Step-IsValid {s} {t} v (waits id cb e) = add_wait-IsValid id cb s t v e

Reach-IsValid : {s t : Semaphore} → IsValid s → Reach s t → IsValid t
Reach-IsValid v here = v
Reach-IsValid v (next r st) = Step-IsValid (Reach-IsValid v r) st

-- After any history of a semaphore made with a `size_t` capacity, what is available and what the
-- attached acquisitions hold add up to its capacity, those in the queue wait with nothing, and the
-- first in the queue wants more than what is available.
pub Reach-create-IsValid :
    (capacity : ℕ) {t : Semaphore} → capacity < word → Reach (create capacity) t → IsValid t
Reach-create-IsValid capacity h r = Reach-IsValid (create-IsValid capacity h) r
