-- ===== src/Sync/SingleTimer/Running.antt =====
-- src/sync/timer.cc: a timer that somebody waits on is running.
use indecorous.Base.{
  ℕ, ◌≡◌, ◌⊎◌, inl, inr, refl, true, false, Bool-cases, List, [], ◌∷◌, ◌++◌, ok, ok-injective,
  assertion, require-eq-ok, >>=-eq-ok, ==_refl, subst, arith,
}
use indecorous.Sync.Time.{AbsoluteTime, ℤ, add, is_before}
use indecorous.Coro.TimerList.{Timer, add_timer, fire}
use indecorous.Coro.TimerList.Order.{
  IsSorted, add_timer-IsSorted, remove_timer-IsSorted, fire-Fires,
}
use indecorous.Sync.SingleTimer.{
  SingleTimer, in_a_list, create, unlisted, start, stop, add_wait, timer_callback, check,
}

-- The thread's timers are in order, and whoever waits does so on a timer that has not been triggered and
-- that the event loop will call.
pub record IsRunning (s : SingleTimer) : Type 0 where
  pub sorted : IsSorted s.timers
  pub pending : (s.waiters ≡ []) ⊎ ((s.triggered ≡ false) × (in_a_list s.id s.timers ≡ true))

pub data Step (s t : SingleTimer) : Type 0 where
  starts : (now : AbsoluteTime) (timeout_ms : ℤ) → start now timeout_ms s ≡ ok t → Step s t
  stops : t ≡ stop s → Step s t
  waits : (cb : ℕ) → add_wait cb s ≡ ok t → Step s t
  checks : (end_time : AbsoluteTime) → t ≡ check end_time s → Step s t

pub data Reach (s : SingleTimer) : SingleTimer → Type 0 where
  here : Reach s s
  next : {t u : SingleTimer} → Reach s t → Step t u → Reach s u

unlisted-IsSorted : (id : ℕ) (timers : List Timer) → IsSorted timers → IsSorted (unlisted id timers)
unlisted-IsSorted id timers h = elim (Bool-cases (in_a_list id timers)) [
  | inl e ↦ rw e (remove_timer-IsSorted id timers h)
  | inr e ↦ rw e h
]

in_a_list-add_timer : (t : Timer) (timers : List Timer) → in_a_list t.id (add_timer t timers) ≡ true
unfolding add_timer
in_a_list-add_timer t [] = rw (==_refl t.id)
in_a_list-add_timer t (x ∷ xs) = elim (Bool-cases (is_before x.timeout t.timeout)) [
  | inl e ↦ rw (e, in_a_list-add_timer t xs) (ground arith)
  | inr e ↦ rw (e, ==_refl t.id)
]

in_a_list-append :
    (id : ℕ) (xs ys : List Timer)
    → in_a_list id (xs ++ ys) ≡ true
    → in_a_list id xs ≡ false
    → in_a_list id ys ≡ true
in_a_list-append id [] ys h k = h
in_a_list-append id (x ∷ xs) ys h k = ground (arith, in_a_list-append id xs ys)

start-IsRunning :
    (now : AbsoluteTime) (timeout_ms : ℤ) (s t : SingleTimer)
    → IsRunning s
    → start now timeout_ms s ≡ ok t
    → IsRunning t
unfolding start
start-IsRunning now timeout_ms s t v h =
    let (timeout, _, e) = >>=-eq-ok (add timeout_ms now) _ h in
    let own : Timer = record { id = s.id; timeout = timeout } in
    subst IsRunning (ok-injective e) (record {
      sorted =
          add_timer-IsSorted own (unlisted s.id s.timers)
            (unlisted-IsSorted s.id s.timers v.sorted);
      pending = inr (refl, in_a_list-add_timer own (unlisted s.id s.timers));
    })

add_wait-IsRunning : (cb : ℕ) (s t : SingleTimer) → IsRunning s → add_wait cb s ≡ ok t → IsRunning t
unfolding add_wait
add_wait-IsRunning cb s t v h = elim (Bool-cases s.triggered) [
  | inl e ↦
      let nobody : s.waiters ≡ [] = elim v.pending [ inl w ↦ w | inr p ↦ cc ] in
      subst IsRunning (ok-injective (rw (e, add_wait) at h))
        (record { sorted = v.sorted; pending = inl nobody })
  | inr e ↦
      let (listed, h') =
        require-eq-ok assertion (in_a_list s.id s.timers) _ (rw (e, add_wait) at h) in
      subst IsRunning (ok-injective h') (record { sorted = v.sorted; pending = inr (refl, listed) })
]

check-IsRunning :
    (end_time : AbsoluteTime) (s : SingleTimer) → IsRunning s → IsRunning (check end_time s)
unfolding check timer_callback
check-IsRunning end_time s v =
    let f = fire-Fires end_time s.timers v.sorted in
    let called = (fire end_time s.timers).0 in
    let left = (fire end_time s.timers).1 in
    elim (Bool-cases (in_a_list s.id called)) [
      | inl e ↦ rw e (record { sorted = f.sorted; pending = inl refl })
      | inr e ↦ rw e (record {
        sorted = f.sorted;
        pending = elim v.pending [
          | inl w ↦ inl w
          | inr p ↦ inr (
            p.0,
            in_a_list-append s.id called left
                (subst (λ ts. in_a_list s.id ts ≡ true) f.in_order p.1) e,
          )
        ];
      })
    ]

Step-IsRunning : {s t : SingleTimer} → IsRunning s → Step s t → IsRunning t
unfolding stop
Step-IsRunning {s} {t} v (starts now ms e) = start-IsRunning now ms s t v e
Step-IsRunning {s} v (stops e) =
    rw e (record { sorted = unlisted-IsSorted s.id s.timers v.sorted; pending = inl refl })
Step-IsRunning {s} {t} v (waits cb e) = add_wait-IsRunning cb s t v e
Step-IsRunning {s} v (checks end_time e) = rw e (check-IsRunning end_time s v)

-- Whatever is done with a new timer on a thread whose timers are in order, they stay in order, and whoever
-- waits on the timer waits for a running one: it has not been triggered, and it is in the event loop's list.
pub Reach-IsRunning :
    (id : ℕ) (timers : List Timer) {t : SingleTimer}
    → IsSorted timers
    → Reach (create id timers) t
    → IsRunning t
unfolding create
Reach-IsRunning id timers h here = record { sorted = h; pending = inl refl }
Reach-IsRunning id timers h (next r st) = Step-IsRunning (Reach-IsRunning id timers h r) st
