-- ===== src/Tests/Timers.antt =====
-- Times and timers of src/sync/timer.cc and src/coro/events.cc at concrete inputs.
use indecorous.Base.{ℕ, refl, false, List, [], ◌∷◌}
use indecorous.Sync.Time.{AbsoluteTime, pos, add, is_before}
use indecorous.Coro.TimerList.{Timer, add_timer, fire}
use indecorous.Coro.TimerList.Order.{IsSorted, Fires, fire-Fires}
use indecorous.Sync.SingleTimer.{SingleTimer, create, start, add_wait}
use indecorous.Sync.SingleTimer.Running.{
  Reach, here, next, starts, waits, IsRunning, Reach-IsRunning,
}

abbrev at : ℕ → ℕ → AbsoluteTime
at sec nsec = record { sec = sec; nsec = nsec }

abbrev timer : ℕ → ℕ → Timer
timer id sec = record { id = id; timeout = at sec 0 }

abbrev three : List Timer
three = timer 1 5 ∷ timer 2 5 ∷ timer 3 9 ∷ []

three-IsSorted : IsSorted three
unfolding is_before
three-IsSorted = ((refl, (refl, tt)), ((refl, tt), (tt, tt)))

fire-Fires_example : Fires (at 6 0) three (fire (at 6 0) three).0 (fire (at 6 0) three).1
fire-Fires_example = fire-Fires (at 6 0) three three-IsSorted

abbrev waited_on : SingleTimer
waited_on = record {
  id = 9;
  triggered = false;
  waiters = 40 ∷ [];
  timers = record { id = 9; timeout = at 4 500000000 } ∷ three;
  woken = [];
}

waited_on_reached : Reach (create 9 three) waited_on
unfolding create start add_wait add add_timer is_before
waited_on_reached = next (next here (starts (at 4 0) (pos 500) refl)) (waits 40 refl)

Reach-IsRunning_example : IsRunning waited_on
Reach-IsRunning_example = Reach-IsRunning 9 three three-IsSorted waited_on_reached
