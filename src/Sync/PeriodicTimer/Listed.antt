-- ===== src/Sync/PeriodicTimer/Listed.antt =====
-- src/sync/timer.cc: a periodic timer stands in the list of its thread while it runs and somebody waits.
use indecorous.Base.{
  ℕ, ◌≡◌, ◌⊎◌, inl, inr, refl, true, false, not, Bool-cases, List, [], ◌∷◌, ◌==◌, ◌&&◌, arith,
}
use indecorous.Sync.Time.{AbsoluteTime, is_before}
use indecorous.Sync.SingleTimer.{in_a_list, unlisted}
use indecorous.Coro.TimerList.{Timer, add_timer, remove_timer, fire}
use indecorous.Sync.PeriodicTimer.{PeriodicTimer, is_running, is_empty}

-- The timer stands in the list once at most; it does not if it is stopped, and does if it runs and
-- somebody waits, and only then.
pub record IsListed (s : PeriodicTimer) : Type 0 where
  pub alone : in_a_list s.id (unlisted s.id s.timers) ≡ false
  pub listed : in_a_list s.id s.timers ≡ (is_running s.period_ms && not (is_empty s.waiters))

pub in_a_list-add_timer :
    (own : Timer) (ts : List Timer)
    → in_a_list own.id ts ≡ false
    → (in_a_list own.id (add_timer own ts) ≡ true)
      × (in_a_list own.id (remove_timer own.id (add_timer own ts)) ≡ false)
unfolding add_timer remove_timer
in_a_list-add_timer own [] h = (ground arith, ground arith)
in_a_list-add_timer own (t ∷ ts) h =
    let rest : in_a_list own.id ts ≡ false = ground arith in
    let (l, r) = in_a_list-add_timer own ts rest in
    elim (Bool-cases (is_before t.timeout own.timeout)) [
      | inl e ↦ rw e (ground (arith, l), ground (arith, r))
      | inr e ↦ rw e (ground arith, ground arith)
    ]

pub unlisted-alone :
    (id : ℕ) (ts : List Timer)
    → in_a_list id (unlisted id ts) ≡ false
    → in_a_list id ts ≡ true
    → in_a_list id (remove_timer id ts) ≡ false
unlisted-alone id ts h l = rw l at h

pub alone-absent :
    (id : ℕ) (ts : List Timer) → in_a_list id ts ≡ false → in_a_list id (unlisted id ts) ≡ false
alone-absent id ts h = rw (h, h) refl

pub alone-listed :
    (id : ℕ) (ts : List Timer)
    → in_a_list id ts ≡ true
    → in_a_list id (remove_timer id ts) ≡ false
    → in_a_list id (unlisted id ts) ≡ false
alone-listed id ts h k = rw h k

pub fire-absent :
    (id : ℕ) (end_time : AbsoluteTime) (ts : List Timer)
    → in_a_list id ts ≡ false
    → (in_a_list id (fire end_time ts).0 ≡ false) × (in_a_list id (fire end_time ts).1 ≡ false)
unfolding fire
fire-absent id end_time [] h = (refl, refl)
fire-absent id end_time (t ∷ ts) h =
    let rest : in_a_list id ts ≡ false = ground arith in
    let (c, l) = fire-absent id end_time ts rest in
    elim (Bool-cases (is_before t.timeout end_time)) [
      | inl e ↦ rw e (ground (arith, c), l)
      | inr e ↦ rw e (refl, h)
    ]

pub alone-cons :
    (id : ℕ) (t : Timer) (ts : List Timer)
    → in_a_list id (unlisted id (t ∷ ts)) ≡ false
    → ((t.id == id) ≡ true × in_a_list id ts ≡ false)
      ⊎ ((t.id == id) ≡ false × in_a_list id (unlisted id ts) ≡ false)
unfolding remove_timer
alone-cons id t ts h = elim (Bool-cases (t.id == id)) [
  | inl e ↦ inl (e, ground arith)
  | inr e ↦ inr (e, ground arith)
]

-- What the loop of `check` calls of a timer that stands in the list once.
pub in_a_list-fire :
    (id : ℕ) (end_time : AbsoluteTime) (ts : List Timer)
    → in_a_list id (unlisted id ts) ≡ false
    → in_a_list id (fire end_time ts).1
      ≡ (in_a_list id ts && not (in_a_list id (fire end_time ts).0))
unfolding fire
in_a_list-fire id end_time [] h = refl
in_a_list-fire id end_time (t ∷ ts) h = elim (Bool-cases (is_before t.timeout end_time)) [
  | inr e ↦ rw e (ground arith)
  | inl e ↦ elim (alone-cons id t ts h) [
    | inl (same, absent) ↦
        let (c, l) = fire-absent id end_time ts absent in rw (e, same) (ground (arith, l))
    | inr (other, alone) ↦ rw (e, other) (in_a_list-fire id end_time ts alone)
  ]
]

pub fire-alone :
    (id : ℕ) (end_time : AbsoluteTime) (ts : List Timer)
    → in_a_list id (unlisted id ts) ≡ false
    → in_a_list id (unlisted id (fire end_time ts).1) ≡ false
unfolding fire
fire-alone id end_time [] h = h
fire-alone id end_time (t ∷ ts) h = elim (Bool-cases (is_before t.timeout end_time)) [
  | inr e ↦ rw e h
  | inl e ↦ elim (alone-cons id t ts h) [
    | inl (same, absent) ↦
        let (c, l) = fire-absent id end_time ts absent in
        rw e (alone-absent id (fire end_time ts).1 l)
    | inr (other, alone) ↦ rw e (fire-alone id end_time ts alone)
  ]
]
