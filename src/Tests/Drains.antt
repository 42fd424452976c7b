-- ===== src/Tests/Drains.antt =====
-- Drainers of src/sync/drainer.cc at concrete inputs.
use indecorous.Base.{[], ◌∷◌, true, refl}
use indecorous.Sync.WaitObject.{success}
use indecorous.Sync.Drainer.{Drainer, create, lock, add_lock_wait, drain, tell_started, wait_done}
use indecorous.Sync.Drainer.Draining.{
  IsOrderly, Reach, start, next, locks, drains, lock_waits, Reach-IsOrderly,
}

-- 5 holds the drainer up, and its waiter 50 has been told that the coroutine 9 waits for the end.
abbrev held_up : Drainer
held_up = record {
  locks = record { id = 5; waiters = [] } ∷ [];
  start_waiters = [];
  finish_waiters = 9 ∷ [];
  draining = true;
  woken = (50, success) ∷ [];
}

held_up_reached : Reach held_up
unfolding create lock add_lock_wait drain tell_started wait_done
held_up_reached = next (next (next start (locks 5 refl)) (lock_waits 5 50 refl)) (drains 9 refl)

Reach-IsOrderly_example : IsOrderly held_up
Reach-IsOrderly_example = Reach-IsOrderly held_up_reached
