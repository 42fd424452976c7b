-- ===== src/Tests/Periodics.antt =====
-- Periodic timers, of src/sync/timer.cc, at concrete inputs.
use indecorous.Base.{ℕ, ◌≡◌, refl, some, [], ◌∷◌, ok, arith}
use indecorous.Sync.Time.{AbsoluteTime, pos, add, is_before}
use indecorous.Sync.Time.Periodic.{update_periodic, Caught, update_periodic-Caught}
use indecorous.Sync.PeriodicTimer.{PeriodicTimer, create, start, add_wait}
use indecorous.Sync.PeriodicTimer.Listed.{IsListed}
use indecorous.Sync.PeriodicTimer.Calls.{Reach, here, next, starts, waits, Reach-IsListed}

abbrev at : ℕ → ℕ → AbsoluteTime
at sec nsec = record { sec = sec; nsec = nsec }

update_periodic-Caught_example :
    (u : AbsoluteTime) × ((update_periodic 5 (pos 500) (at 7 0) (at 5 100) ≡ ok (some u))
      × Caught 500 (at 7 0) (at 5 100) u)
update_periodic-Caught_example =
    update_periodic-Caught 5 500 (at 7 0) (at 5 100) (omega arith) (omega arith) (omega arith)
      (omega arith) (omega arith) (omega arith)

-- A timer with a period of half a second, started at 7 s, on which 3 waits.
abbrev started : PeriodicTimer
started = record {
  id = 1;
  period_ms = pos 500;
  timeout = at 7 500000000;
  waiters = [];
  timers = [];
  woken = [];
}

abbrev waiting : PeriodicTimer
waiting = record {
  id = 1;
  period_ms = pos 500;
  timeout = at 8 500000000;
  waiters = 3 ∷ [];
  timers = record { id = 1; timeout = at 8 500000000 } ∷ [];
  woken = [];
}

waiting_reached : Reach (create 1 (at 0 0) []) waiting
unfolding create start add add_wait update_periodic is_before indecorous.Coro.TimerList.add_timer
waiting_reached =
    next {t = started} (next here (starts (at 7 0) 500 refl)) (waits 0 (at 8 0) (at 8 1) 3 refl)

Reach-IsListed_example : IsListed waiting
Reach-IsListed_example = Reach-IsListed 1 (at 0 0) [] waiting refl waiting_reached
