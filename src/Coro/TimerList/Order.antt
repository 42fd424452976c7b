-- ===== src/Coro/TimerList/Order.antt =====
-- src/coro/events.cc: the timers stand in the order of their timeouts, and are called in it.
use indecorous.Base.{
  ℕ, ◌≡◌, ◌≤◌, ◌<◌, ◌+◌, ◌*◌, ◌^◌, ◌-◌, true, false, List, [], ◌∷◌, ◌++◌, ◌==◌, All, inl, inr,
  Bool-cases, ap, refl, arith,
}
use indecorous.Sync.Time.{AbsoluteTime, pos, is_before}
use indecorous.Sync.Time.Calendar.{instant, IsNormal, ms_diff_later}
use indecorous.Coro.TimerList.{Timer, add_timer, remove_timer, fire, poll_timeout}

-- No timer is before one that stands earlier in the list.
abbrev pub IsSorted : List Timer → Type 0
IsSorted [] = Unit {0}
IsSorted (t ∷ rest) = All (λ u. is_before u.timeout t.timeout ≡ false) rest × IsSorted rest

not_before_trans :
    (a b c : AbsoluteTime) → is_before b a ≡ false → is_before c b ≡ false → is_before c a ≡ false
unfolding is_before
not_before_trans a b c h k = ground arith

before-asym : (a b : AbsoluteTime) → is_before a b ≡ true → is_before b a ≡ false
unfolding is_before
before-asym a b h = ground arith

All-later :
    (t u : Timer) (rest : List Timer)
    → is_before u.timeout t.timeout ≡ false
    → All (λ v. is_before v.timeout u.timeout ≡ false) rest
    → All (λ v. is_before v.timeout t.timeout ≡ false) rest
All-later t u [] h k = tt
All-later t u (v ∷ rest) h k =
    (not_before_trans t.timeout u.timeout v.timeout h k.0, All-later t u rest h k.1)

All-add_timer :
    (P : Timer → Type 0) (cb : Timer) (xs : List Timer) → P cb → All P xs → All P (add_timer cb xs)
unfolding add_timer
All-add_timer P cb [] p h = (p, tt)
All-add_timer P cb (x ∷ xs) p h = elim (Bool-cases (is_before x.timeout cb.timeout)) [
  | inl e ↦ rw e (h.0, All-add_timer P cb xs p h.1)
  | inr e ↦ rw e (p, h)
]

-- Adding a timer keeps the list in order.
pub add_timer-IsSorted : (cb : Timer) (xs : List Timer) → IsSorted xs → IsSorted (add_timer cb xs)
unfolding add_timer
add_timer-IsSorted cb [] h = (tt, tt)
add_timer-IsSorted cb (x ∷ xs) h = elim (Bool-cases (is_before x.timeout cb.timeout)) [
  | inl e ↦ rw e (
    All-add_timer (λ v. is_before v.timeout x.timeout ≡ false) cb xs
        (before-asym x.timeout cb.timeout e) h.0,
    add_timer-IsSorted cb xs h.1,
  )
  | inr e ↦ rw e ((e, All-later cb x xs e h.0), h)
]

All-remove_timer :
    (P : Timer → Type 0) (id : ℕ) (xs : List Timer) → All P xs → All P (remove_timer id xs)
unfolding remove_timer
All-remove_timer P id [] h = tt
All-remove_timer P id (x ∷ xs) h = elim (Bool-cases (x.id == id)) [
  | inl e ↦ rw e h.1
  | inr e ↦ rw e (h.0, All-remove_timer P id xs h.1)
]

pub remove_timer-IsSorted : (id : ℕ) (xs : List Timer) → IsSorted xs → IsSorted (remove_timer id xs)
unfolding remove_timer
remove_timer-IsSorted id [] h = tt
remove_timer-IsSorted id (x ∷ xs) h = elim (Bool-cases (x.id == id)) [
  | inl e ↦ rw e h.1
  | inr e ↦ rw e (
    All-remove_timer (λ v. is_before v.timeout x.timeout ≡ false) id xs h.0,
    remove_timer-IsSorted id xs h.1,
  )
]

-- Of sorted timers, those called are all that are before the end time, in their order; the others are
-- left, and stay sorted.
pub record Fires (end_time : AbsoluteTime) (timers called left : List Timer) : Type 0 where
  pub in_order : timers ≡ called ++ left
  pub due : All (λ t. is_before t.timeout end_time ≡ true) called
  pub later : All (λ t. is_before t.timeout end_time ≡ false) left
  pub sorted : IsSorted left

All-not_due :
    (end_time : AbsoluteTime) (t : Timer) (rest : List Timer)
    → is_before t.timeout end_time ≡ false
    → All (λ u. is_before u.timeout t.timeout ≡ false) rest
    → All (λ u. is_before u.timeout end_time ≡ false) rest
All-not_due end_time t [] h k = tt
All-not_due end_time t (u ∷ rest) h k =
    (not_before_trans end_time t.timeout u.timeout h k.0, All-not_due end_time t rest h k.1)

-- `check` calls the timers of a sorted list whose timeout is before the end time, all of them and no
-- others, earliest first, and leaves the rest in order.
pub fire-Fires :
    (end_time : AbsoluteTime) (timers : List Timer)
    → IsSorted timers
    → Fires end_time timers (fire end_time timers).0 (fire end_time timers).1
unfolding fire
fire-Fires end_time [] h = record { in_order = refl; due = tt; later = tt; sorted = tt }
fire-Fires end_time (t ∷ rest) h = elim (Bool-cases (is_before t.timeout end_time)) [
  | inl e ↦
      let v = fire-Fires end_time rest h.1 in
      rw e (record {
        in_order = ap (◌∷◌ t) v.in_order;
        due = (e, v.due);
        later = v.later;
        sorted = v.sorted;
      })
  | inr e ↦ rw e (record {
    in_order = refl;
    due = tt;
    later = (e, All-not_due end_time t rest e h.0);
    sorted = h;
  })
]

-- The timeout for `epoll_wait` is over when the first timer is due, and not a millisecond later, if the
-- timer is not due yet and fewer than 2 ^ 31 milliseconds away.
pub poll_timeout-instant :
    (start_time : AbsoluteTime) (t : Timer) (rest : List Timer)
    → IsNormal start_time
    → IsNormal t.timeout
    → t.timeout.sec < 2 ^ 53
    → instant start_time ≤ instant t.timeout
    → instant t.timeout < instant start_time + (2 ^ 31 - 1) * 1000000
    → (ms : ℕ) × (poll_timeout true start_time (t ∷ rest) ≡ pos ms)
      × (instant t.timeout ≤ instant start_time + ms * 1000000)
      × (instant start_time + ms * 1000000 < instant t.timeout + 1000000)
unfolding poll_timeout
poll_timeout-instant start_time t rest hs ht early later soon =
    let (ms, e, low, high) = ms_diff_later t.timeout start_time ht hs early later in
    let near : ms < 2 ^ 31 = omega arith in (ms, rw e (ground arith), low, high)

-- A timer from 2 ^ 31 up to fewer than 2 ^ 32 milliseconds away makes the timeout zero: the loop polls
-- without a pause.
pub poll_timeout_far :
    (start_time : AbsoluteTime) (t : Timer) (rest : List Timer)
    → IsNormal start_time
    → IsNormal t.timeout
    → t.timeout.sec < 2 ^ 53
    → instant start_time + 2 ^ 31 * 1000000 ≤ instant t.timeout
    → instant t.timeout < instant start_time + (2 ^ 32 - 1) * 1000000
    → poll_timeout true start_time (t ∷ rest) ≡ pos 0
unfolding poll_timeout
poll_timeout_far start_time t rest hs ht early far soon =
    let (ms, e, low, high) = ms_diff_later t.timeout start_time ht hs early (omega arith) in
    let big : 2 ^ 31 ≤ ms = omega arith in
    let small : ms < 2 ^ 32 = omega arith in rw e (ground arith)
