-- ===== src/Tests/Threads.antt =====
-- A mutex between threads, of src/cross_thread/ct_mutex.cc, at concrete inputs.
use indecorous.Base.{refl, [], ◌∷◌, first}
use indecorous.CrossThread.CtMutex.{
  CtMutex, create, add_lock, ready, release_lock, send_notify, notification,
}
use indecorous.CrossThread.CtMutex.Exclusion.{
  Reach, start, next, adds, readies, releases, sends, notifies, IsExclusive, Reach-IsExclusive,
}

-- 1 had the mutex and is gone, 3 queues behind 2, and the call that told 2 has just arrived.
abbrev passed_on : CtMutex
passed_on = record {
  locks = 2 ∷ 3 ∷ [];
  readying = [];
  holding = 2 ∷ [];
  sending = [];
  in_flight = [];
}

passed_on_reached : Reach passed_on
unfolding create add_lock ready release_lock send_notify notification
passed_on_reached =
    next
      (next
        (next
          (next
            (next (next (next (next start (adds 1 refl)) (readies 1 first refl)) (adds 2 refl))
              (releases 1 refl refl))
            (adds 3 refl))
          (sends 2 first refl))
        (notifies 2 first refl))
      (readies 2 first refl)

Reach-IsExclusive_example : IsExclusive passed_on
Reach-IsExclusive_example = Reach-IsExclusive passed_on_reached
