-- ===== src/Sync/PeriodicTimer.antt =====
-- src/sync/timer.hpp and timer.cc: `periodic_timer_t`, with the timers of its thread (src/coro/events.cc)
-- and the log of the callbacks that were run. What the clock says is an argument.
pub mod Listed
pub mod Calls
use indecorous.Base.{
  ℕ, zero, suc, Bool, true, false, not, Option, none, some, List, [], ◌∷◌, ◌++◌, Result, ok, assert,
  ◌>>=◌, ◌>>◌, ◌==◌, ◌&&◌, ◌||◌, if◌then◌else◌,
}
use indecorous.Sync.WaitObject.{WaitResult, success, interrupted, object_lost, Notice, notices}
use indecorous.Sync.Time.{AbsoluteTime, ℤ, pos, negsuc, add}
use indecorous.Sync.Time.Periodic.{update_periodic}
use indecorous.Sync.SingleTimer.{in_a_list, unlisted}
use indecorous.Coro.TimerList.{Timer, add_timer, remove_timer, fire}

pub record PeriodicTimer : Type 0 where
  pub id : ℕ
  pub period_ms : ℤ
  pub timeout : AbsoluteTime
  pub waiters : List ℕ
  pub timers : List Timer
  pub woken : List Notice

-- `m_period_ms != -1`
abbrev pub is_running : ℤ → Bool
is_running (pos ms) = true
is_running (negsuc zero) = false
is_running (negsuc (suc n)) = true

abbrev pub is_empty : List ℕ → Bool
is_empty [] = true
is_empty (w ∷ ws) = false

-- `periodic_timer_t()`: `timers` are those of the thread, by other objects.
unfoldable pub create : ℕ → AbsoluteTime → List Timer → PeriodicTimer
create id timeout timers = record {
  id = id;
  period_ms = negsuc 0;
  timeout = timeout;
  waiters = [];
  timers = timers;
  woken = [];
}

-- `stop_internal`
unfoldable pub stop_internal : WaitResult → PeriodicTimer → PeriodicTimer
stop_internal result s = record s {
  period_ms = negsuc 0;
  waiters = [];
  timers = unlisted s.id s.timers;
  woken = s.woken ++ notices result s.waiters;
}

-- `stop`, and `~periodic_timer_t`
unfoldable pub stop : PeriodicTimer → PeriodicTimer
stop s = stop_internal interrupted s

unfoldable pub destroy : PeriodicTimer → PeriodicTimer
destroy s = stop_internal object_lost s

-- The list without the timer in `start`: one that is there must have no waiters.
abbrev pub restarted : PeriodicTimer → Result (List Timer)
restarted s =
    if in_a_list s.id s.timers
    then (do assert (is_empty s.waiters); ok (remove_timer s.id s.timers))
    else ok s.timers

-- `start`, at the time `now`
unfoldable pub start : AbsoluteTime → ℤ → PeriodicTimer → Result PeriodicTimer
start now period_ms s = do
  timeout ← add period_ms now
  timers ← restarted s
  ok (record s {
    period_ms = period_ms;
    timeout = timeout;
    timers =
        if is_empty s.waiters
        then timers
        else add_timer (record { id = s.id; timeout = timeout }) timers;
  })

-- The new timeout in `add_wait`, and the timer with it in the list; `none` is the loop that goes on.
abbrev pub listed_at : PeriodicTimer → Option AbsoluteTime → Option PeriodicTimer
listed_at s none = none
listed_at s (some timeout) = some (record s {
  timeout = timeout;
  timers = add_timer (record { id = s.id; timeout = timeout }) s.timers;
})

-- `add_wait`: the clock says `now` and then `later`, and the loop of `update_periodic` has `fuel` rounds.
unfoldable pub add_wait :
    ℕ → AbsoluteTime → AbsoluteTime → ℕ → PeriodicTimer → Result (Option PeriodicTimer)
add_wait fuel now later cb s =
    let waiting = record s { waiters = s.waiters ++ cb ∷ [] } in
    if is_running s.period_ms && not (in_a_list s.id s.timers)
    then (do
      timeout ← add s.period_ms now
      caught ← update_periodic fuel s.period_ms later timeout
      ok (listed_at waiting caught))
    else ok (some waiting)

abbrev pub take_out : ℕ → List ℕ → List ℕ
take_out cb [] = []
take_out cb (x ∷ xs) = if x == cb then xs else x ∷ take_out cb xs

-- `remove_wait`
unfoldable pub remove_wait : ℕ → PeriodicTimer → PeriodicTimer
remove_wait cb s =
    let rest = take_out cb s.waiters in
    record s {
      waiters = rest;
      timers =
          if is_empty rest && in_a_list s.id s.timers then remove_timer s.id s.timers else s.timers;
    }

-- `timer_callback`
unfoldable pub timer_callback : WaitResult → PeriodicTimer → Result PeriodicTimer
timer_callback result s = do
  assert (is_running s.period_ms)
  ok (record s { waiters = []; woken = s.woken ++ notices result s.waiters })

-- `events_t::check` at the time `end_time`, as the timer sees it.
unfoldable pub check : AbsoluteTime → PeriodicTimer → Result PeriodicTimer
check end_time s =
    let (called, left) = fire end_time s.timers in
    if in_a_list s.id called
    then timer_callback success (record s { timers = left })
    else ok (record s { timers = left })
