-- ===== src/Sync/PeriodicTimer/Calls.antt =====
-- src/sync/timer.cc: every call on a periodic timer keeps it listed as it should be.
use indecorous.Base.{
  ℕ, ◌≡◌, inl, inr, refl, Bool, true, false, not, Bool-cases, List, [], ◌∷◌, ◌++◌, Option, none,
  some, ok, err, assertion, ok-injective, require-eq-ok, >>=-eq-ok, ◌&&◌, if◌then◌else◌, subst,
  arith,
}
use indecorous.Sync.Time.{AbsoluteTime, pos, add}
use indecorous.Sync.Time.Periodic.{update_periodic}
use indecorous.Sync.SingleTimer.{in_a_list, unlisted}
use indecorous.Coro.TimerList.{Timer, add_timer, fire}
use indecorous.Sync.PeriodicTimer.{
  PeriodicTimer, is_running, is_empty, create, stop_internal, stop, restarted, start, listed_at,
  add_wait, take_out, remove_wait, timer_callback, check,
}
use indecorous.Sync.PeriodicTimer.Listed.{
  IsListed, in_a_list-add_timer, unlisted-alone, alone-absent, alone-listed, in_a_list-fire,
  fire-alone,
}

-- A call on a timer whose period is positive, or the event loop's. The fuel is one that the loop of
-- `add_wait` ends with.
pub data Step (s t : PeriodicTimer) : Type 0 where
  starts : (now : AbsoluteTime) (ms : ℕ) → start now (pos ms) s ≡ ok t → Step s t
  stops : t ≡ stop s → Step s t
  waits :
      (fuel : ℕ) (now later : AbsoluteTime) (cb : ℕ)
      → add_wait fuel now later cb s ≡ ok (some t)
      → Step s t
  quits : (cb : ℕ) → t ≡ remove_wait cb s → Step s t
  checks : (end_time : AbsoluteTime) → check end_time s ≡ ok t → Step s t

pub data Reach (s : PeriodicTimer) : PeriodicTimer → Type 0 where
  here : Reach s s
  next : {t u : PeriodicTimer} → Reach s t → Step t u → Reach s u

-- A list that the timer is put in or not.
put-IsListed :
    (s : PeriodicTimer) (b : Bool) (timeout : AbsoluteTime)
    → in_a_list s.id s.timers ≡ false
    → (is_running s.period_ms && not (is_empty s.waiters)) ≡ not b
    → IsListed (record s {
      timeout = timeout;
      timers = if b then s.timers else add_timer (record { id = s.id; timeout = timeout }) s.timers;
    })
put-IsListed s true timeout h w = record {
  alone = alone-absent s.id s.timers h;
  listed = cc (h, w);
}
put-IsListed s false timeout h w =
    let (l, r) = in_a_list-add_timer (record { id = s.id; timeout = timeout }) s.timers h in
    record { alone = alone-listed s.id _ l r; listed = cc (l, w) }

restarted-absent :
    (s : PeriodicTimer) (ts : List Timer)
    → IsListed s
    → restarted s ≡ ok ts
    → in_a_list s.id ts ≡ false
restarted-absent s ts v h = elim (Bool-cases (in_a_list s.id s.timers)) [
  | inl e ↦
      let (nobody, h') = require-eq-ok assertion (is_empty s.waiters) _ (rw e at h) in
      absurd (ground (arith, v.listed, e, nobody))
  | inr e ↦ let h' = rw e at h in cc
]

start-IsListed :
    (now : AbsoluteTime) (ms : ℕ) (s t : PeriodicTimer)
    → IsListed s
    → start now (pos ms) s ≡ ok t
    → IsListed t
unfolding start
start-IsListed now ms s t v h =
    let (timeout, _, e) = >>=-eq-ok (add (pos ms) now) _ h in
    let (ts, r, e') = >>=-eq-ok (restarted s) _ e in
    subst IsListed (ok-injective e') (
      put-IsListed (record s { period_ms = pos ms; timers = ts }) (is_empty s.waiters) timeout
        (restarted-absent s ts v r) refl)

stop-IsListed : (s : PeriodicTimer) → IsListed s → IsListed (stop s)
unfolding stop stop_internal
stop-IsListed s v = record {
  alone = alone-absent s.id (unlisted s.id s.timers) v.alone;
  listed = v.alone;
}

-- Whoever is put behind the others leaves somebody there.
is_empty-snoc : (ws : List ℕ) (cb : ℕ) → is_empty (ws ++ cb ∷ []) ≡ false
is_empty-snoc [] cb = refl
is_empty-snoc (w ∷ ws) cb = refl

some-injective : {s t : PeriodicTimer} → some s ≡ some t → s ≡ t
some-injective h = cc

add_wait-IsListed :
    (fuel : ℕ) (now later : AbsoluteTime) (cb : ℕ) (s t : PeriodicTimer)
    → IsListed s
    → add_wait fuel now later cb s ≡ ok (some t)
    → IsListed t
unfolding add_wait
add_wait-IsListed fuel now later cb s t v h =
    let somebody = is_empty-snoc s.waiters cb in
    elim (Bool-cases (is_running s.period_ms && not (in_a_list s.id s.timers))) [
      | inr e ↦
          let h' = rw e at h in
          let same : record s { waiters = s.waiters ++ cb ∷ [] } ≡ t = cc in
          subst IsListed same
            (record { alone = v.alone; listed = ground (arith, v.listed, e, somebody) })
      | inl e ↦
          let (timeout, _, e') = >>=-eq-ok (add s.period_ms now) _ (rw e at h) in
          let (caught, _, e'') = >>=-eq-ok (update_periodic fuel s.period_ms later timeout) _ e' in
          listed_at-IsListed caught e somebody (ok-injective e'')
    ]
  where
    listed_at-IsListed :
        (caught : Option AbsoluteTime)
        → (is_running s.period_ms && not (in_a_list s.id s.timers)) ≡ true
        → is_empty (s.waiters ++ cb ∷ []) ≡ false
        → listed_at (record s { waiters = s.waiters ++ cb ∷ [] }) caught ≡ some t
        → IsListed t
    listed_at-IsListed (some at) e w k = subst IsListed (some-injective k) (
        put-IsListed (record s { waiters = s.waiters ++ cb ∷ [] }) false at (ground arith)
          (ground (arith, w, e)))
    listed_at-IsListed none e w k = cc

is_empty-take_out : (cb : ℕ) (ws : List ℕ) → is_empty ws ≡ true → is_empty (take_out cb ws) ≡ true
is_empty-take_out cb [] h = refl
is_empty-take_out cb (w ∷ ws) h = cc

remove_wait-IsListed : (cb : ℕ) (s : PeriodicTimer) → IsListed s → IsListed (remove_wait cb s)
unfolding remove_wait
remove_wait-IsListed cb s v =
    let less = is_empty-take_out cb s.waiters in
    elim (Bool-cases (is_empty (take_out cb s.waiters) && in_a_list s.id s.timers)) [
      | inl e ↦
          let there : in_a_list s.id s.timers ≡ true = ground arith in
          let gone = unlisted-alone s.id s.timers v.alone there in
          rw e (record { alone = alone-absent s.id _ gone; listed = ground (arith, gone, e) })
      | inr e ↦ rw e (record { alone = v.alone; listed = ground (arith, v.listed, e, less) })
    ]

check-IsListed :
    (end_time : AbsoluteTime) (s t : PeriodicTimer)
    → IsListed s
    → check end_time s ≡ ok t
    → IsListed t
unfolding check timer_callback
check-IsListed end_time s t v h =
    let left = in_a_list-fire s.id end_time s.timers v.alone in
    let alone = fire-alone s.id end_time s.timers v.alone in
    elim (Bool-cases (in_a_list s.id (fire end_time s.timers).0)) [
      | inl e ↦
          let (running, h') = require-eq-ok assertion (is_running s.period_ms) _ (rw e at h) in
          subst IsListed (ok-injective h')
            (record { alone = alone; listed = ground (arith, left, e) })
      | inr e ↦
          subst IsListed (ok-injective (rw e at h))
            (record { alone = alone; listed = ground (arith, left, e, v.listed) })
    ]

Step-IsListed : (s t : PeriodicTimer) → IsListed s → Step s t → IsListed t
Step-IsListed s t v (starts now ms h) = start-IsListed now ms s t v h
Step-IsListed s t v (stops h) = rw h (stop-IsListed s v)
Step-IsListed s t v (waits fuel now later cb h) = add_wait-IsListed fuel now later cb s t v h
Step-IsListed s t v (quits cb h) = rw h (remove_wait-IsListed cb s v)
Step-IsListed s t v (checks end_time h) = check-IsListed end_time s t v h

-- After any calls on a new periodic timer whose periods are positive, it stands in the list of its thread
-- once if it runs and somebody waits, and not at all otherwise: whoever waits on a running timer will be
-- called, and the event loop never calls one that is stopped.
pub Reach-IsListed :
    (id : ℕ) (timeout : AbsoluteTime) (timers : List Timer) (s : PeriodicTimer)
    → in_a_list id timers ≡ false
    → Reach (create id timeout timers) s
    → IsListed s
unfolding create
Reach-IsListed id timeout timers s h here = record { alone = alone-absent id timers h; listed = h }
Reach-IsListed id timeout timers s h (next {t} r p) =
    Step-IsListed t s (Reach-IsListed id timeout timers t h r) p

-- A running periodic timer that somebody waits on cannot be started again: the assertion of `start` that
-- it has no waiters fails in every such state that can be reached.
pub start-fails :
    (id ms : ℕ) (timeout now : AbsoluteTime) (timers : List Timer) (s : PeriodicTimer)
    {later : AbsoluteTime}
    → in_a_list id timers ≡ false
    → Reach (create id timeout timers) s
    → is_running s.period_ms ≡ true
    → is_empty s.waiters ≡ false
    → add (pos ms) now ≡ ok later
    → start now (pos ms) s ≡ err assertion
unfolding start
start-fails id ms timeout now timers s h r running somebody e =
    let v = Reach-IsListed id timeout timers s h r in
    let there : in_a_list s.id s.timers ≡ true = ground (arith, v.listed, running, somebody) in
    rw (e, there, somebody) refl
