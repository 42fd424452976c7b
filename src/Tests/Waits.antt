-- ===== src/Tests/Waits.antt =====
-- Mutexes, events and multiple waits of src/sync at concrete inputs.
use indecorous.Base.{ℕ, ◌+◌, ◌≡◌, refl, true, false, List, [], ◌∷◌, ok}
use indecorous.Sync.WaitObject.{success, object_lost}
use indecorous.Sync.Mutex.{
  Lock, Mutex, start_acq, add_wait, has, destroy, move_acq, find, release_lock,
}
use indecorous.Sync.Mutex
use indecorous.Sync.Mutex.Handover.{IsSettled}
use indecorous.Sync.Mutex.Ledger.{
  Reach, start, starts, waits, destroys, times, waiting, notified, Reach-IsSettled_told,
}
use indecorous.Sync.Mutex.Fate.{Fate}
use indecorous.Sync.Event
use indecorous.Sync.Event.{Call, sets, resets, run, waits_in, run-IsSettled}
use indecorous.Sync.MultipleWait.{Waiter}
use indecorous.Sync.MultipleWait.Completion.{finish, woken_with, finish-replicate}

abbrev lock : ℕ → List ℕ → Lock
lock id waiters = record { id = id; waiters = waiters }

-- 1 holds the mutex, and 2 waits for it with the callback 20.
abbrev contended : Mutex
contended = record { locks = lock 1 [] ∷ lock 2 (20 ∷ []) ∷ []; woken = [] }

contended_reached : Reach (20 ∷ []) [] contended
unfolding Mutex.create start_acq add_wait has
contended_reached = waits 2 20 (lock 2 []) (starts 2 (starts 1 start)) refl

abbrev handed_over : Mutex
handed_over = record { locks = lock 2 [] ∷ []; woken = (20, success) ∷ [] }

handed_over_reached : Reach (20 ∷ []) [] handed_over
unfolding Mutex.create start_acq add_wait has destroy release_lock
handed_over_reached = destroys 1 contended_reached refl

Reach-IsSettled_told_example :
    IsSettled handed_over.locks
    × (times 20 (20 ∷ [])
        ≡ (waiting 20 handed_over.locks + notified 20 handed_over.woken) + times 20 [])
Reach-IsSettled_told_example = Reach-IsSettled_told 20 handed_over_reached

abbrev calls : List Call
calls = Event.waits 1 ∷ sets ∷ Event.waits 2 ∷ resets ∷ Event.waits 3 ∷ []

abbrev suspended : Waiter
suspended = record {
  items = 1 ∷ 2 ∷ 3 ∷ [];
  is_ready = false;
  waiting = true;
  needed = 3;
  result = success;
  woken = [];
}

finish-replicate_example :
    (needed : ℕ) × (finish (success ∷ success ∷ object_lost ∷ []) suspended
      ≡ ok (woken_with object_lost needed suspended))
finish-replicate_example =
    finish-replicate 2 object_lost suspended (record { unready = refl; waiting = refl }) refl
