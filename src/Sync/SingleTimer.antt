-- ===== src/Sync/SingleTimer.antt =====
-- src/sync/timer.hpp and timer.cc: `single_timer_t`, with the timers of its thread (src/coro/events.cc)
-- and the log of the callbacks that were run. What the clock says is an argument.
pub mod Running
use indecorous.Base.{
  ℕ, Bool, true, false, List, [], ◌∷◌, ◌++◌, Result, ok, assert, ◌>>=◌, ◌>>◌, ◌==◌, ◌||◌,
  if◌then◌else◌,
}
use indecorous.Sync.WaitObject.{WaitResult, success, interrupted, object_lost, Notice, notices}
use indecorous.Sync.Time.{AbsoluteTime, ℤ, add}
use indecorous.Coro.TimerList.{Timer, add_timer, remove_timer, fire}

pub record SingleTimer : Type 0 where
  pub id : ℕ
  pub triggered : Bool
  pub waiters : List ℕ
  pub timers : List Timer
  pub woken : List Notice

-- `in_a_list()`
abbrev pub in_a_list : ℕ → List Timer → Bool
in_a_list id [] = false
in_a_list id (t ∷ rest) = (t.id == id) || in_a_list id rest

-- `single_timer_t()`: `timers` are those of the thread, by other objects.
unfoldable pub create : ℕ → List Timer → SingleTimer
create id timers = record { id = id; triggered = false; waiters = []; timers = timers; woken = [] }

abbrev pub unlisted : ℕ → List Timer → List Timer
unlisted id timers = if in_a_list id timers then remove_timer id timers else timers

-- `single_timer_t::start`, at the time `now`
unfoldable pub start : AbsoluteTime → ℤ → SingleTimer → Result SingleTimer
start now timeout_ms s = do
  timeout ← add timeout_ms now
  ok (record s {
    triggered = false;
    timers = add_timer (record { id = s.id; timeout = timeout }) (unlisted s.id s.timers);
  })

-- `single_timer_t::stop`
unfoldable pub stop : SingleTimer → SingleTimer
stop s = record s {
  triggered = false;
  timers = unlisted s.id s.timers;
  waiters = [];
  woken = s.woken ++ notices interrupted s.waiters;
}

-- `single_timer_t::add_wait`
unfoldable pub add_wait : ℕ → SingleTimer → Result SingleTimer
add_wait cb s =
    if s.triggered
    then ok (record s { woken = s.woken ++ (cb, success) ∷ [] })
    else (do assert (in_a_list s.id s.timers); ok (record s { waiters = s.waiters ++ cb ∷ [] }))

-- `single_timer_t::timer_callback`
unfoldable pub timer_callback : WaitResult → SingleTimer → SingleTimer
timer_callback result s = record s {
  triggered = true;
  waiters = [];
  woken = s.woken ++ notices result s.waiters;
}

-- `events_t::check` at the time `end_time`, as the timer sees it.
unfoldable pub check : AbsoluteTime → SingleTimer → SingleTimer
unfolding timer_callback
check end_time s =
    let (called, left) = fire end_time s.timers in
    if in_a_list s.id called
    then timer_callback success (record s { timers = left })
    else record s { timers = left }

-- `~single_timer_t`: what is left are the timers of the others, and the log.
unfoldable pub destroy : SingleTimer → List Timer × List Notice
destroy s = (unlisted s.id s.timers, s.woken ++ notices object_lost s.waiters)
