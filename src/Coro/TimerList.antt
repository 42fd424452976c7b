-- ===== src/Coro/TimerList.antt =====
-- src/coro/events.hpp and events.cc: the timers of a thread, earliest first. A timer is the address of
-- its object and its timeout; the list is that of the intrusive list's entries.
pub mod Order
use indecorous.Base.{
  ℕ, ◌≡◌, Bool, true, false, List, [], ◌∷◌, ◌==◌, ltb, ◌%◌, ◌-◌, ◌^◌, if◌then◌else◌,
}
use indecorous.Sync.Time.{AbsoluteTime, ℤ, pos, negsuc, ms_diff, is_before}

-- `timer_callback_t`
pub record Timer : Type 0 where
  pub id : ℕ
  pub timeout : AbsoluteTime

-- `events_t::add_timer`: the cursor walks past what is earlier.
unfoldable pub add_timer : Timer → List Timer → List Timer
add_timer cb [] = cb ∷ []
add_timer cb (cursor ∷ rest) =
    if is_before cursor.timeout cb.timeout then cursor ∷ add_timer cb rest else cb ∷ cursor ∷ rest

-- `events_t::remove_timer`
unfoldable pub remove_timer : ℕ → List Timer → List Timer
remove_timer id [] = []
remove_timer id (t ∷ rest) = if t.id == id then rest else t ∷ remove_timer id rest

-- The loop at the end of `events_t::check`: the timers that are called, and those that are left.
unfoldable pub fire : AbsoluteTime → List Timer → List Timer × List Timer
fire end_time [] = ([], [])
fire end_time (t ∷ rest) =
    let (called, left) = fire end_time rest in
    if is_before t.timeout end_time then (t ∷ called, left) else ([], t ∷ rest)

-- An `int64_t` as an `int`.
abbrev pub as_int : ℤ → ℤ
as_int (pos n) =
    if ltb (n % 2 ^ 32) (2 ^ 31) then pos (n % 2 ^ 32) else negsuc (2 ^ 32 - n % 2 ^ 32 - 1)
as_int (negsuc n) =
    if ltb (n % 2 ^ 32) (2 ^ 31) then negsuc (n % 2 ^ 32) else pos (2 ^ 32 - n % 2 ^ 32 - 1)

-- A timeout below zero is none.
abbrev at_least_zero : ℤ → ℤ
at_least_zero (pos n) = pos n
at_least_zero (negsuc n) = pos 0

-- The timeout that `events_t::check` gives to `epoll_wait`: -1 is for ever.
unfoldable pub poll_timeout : Bool → AbsoluteTime → List Timer → ℤ
poll_timeout false start_time timers = pos 0
poll_timeout true start_time [] = negsuc 0
poll_timeout true start_time (t ∷ rest) = at_least_zero (as_int (ms_diff t.timeout start_time))
