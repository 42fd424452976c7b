-- ===== src/Sync/Drainer/Draining.antt =====
-- src/sync/drainer.cc: whoever waits for the end of the draining waits for a lock that is still there.
use indecorous.Base.{
  ℕ, ◌≡◌, ◌⊎◌, inl, inr, refl, true, false, Option-cases, List, [], ◌∷◌, ◌++◌, ok, assertion,
  require-eq-ok, ok-injective, not, subst, arith,
}
use indecorous.Sync.WaitObject.{success, notices}
use indecorous.Sync.Drainer.{
  DrainLock, StartWaiter, lock_of, other, Drainer, create, find, update, forget, add_wait, lock,
  add_lock_wait, wait_done, tell_started, drain, remove_lock, destroy_lock, no_locks,
}

-- Before the draining nobody waits for its end; once it has started nobody waits for its start; and where
-- no lock is left nobody waits for its end.
pub record IsOrderly (d : Drainer) : Type 0 where
  pub before : (d.draining ≡ true) ⊎ (d.finish_waiters ≡ [])
  pub during : (d.draining ≡ false) ⊎ (d.start_waiters ≡ [])
  pub after : (no_locks d.locks ≡ false) ⊎ (d.finish_waiters ≡ [])

pub data Step (d t : Drainer) : Type 0 where
  waits : (cb : ℕ) → t ≡ add_wait cb d → Step d t
  locks : (id : ℕ) → lock id d ≡ ok t → Step d t
  lock_waits : (id cb : ℕ) → t ≡ add_lock_wait id cb d → Step d t
  drains : (self : ℕ) → t ≡ drain self d → Step d t
  unlocks : (id : ℕ) → destroy_lock id d ≡ ok t → Step d t

pub data Reach : Drainer → Type 0 where
  start : Reach create
  next : {d t : Drainer} → Reach d → Step d t → Reach t

no_locks-update :
    (id : ℕ) (f : DrainLock → DrainLock) (ls : List DrainLock)
    → no_locks (update id f ls) ≡ no_locks ls
no_locks-update id f [] = refl
no_locks-update id f (l ∷ rest) = ground arith

no_locks-snoc : (ls : List DrainLock) (l : DrainLock) → no_locks (ls ++ l ∷ []) ≡ false
no_locks-snoc [] l = refl
no_locks-snoc (k ∷ ls) l = refl

-- Telling of the start leaves the flag, the waiters and whether there are locks.
record Keeps (d t : Drainer) : Type 0 where
  flag : t.draining ≡ d.draining
  starting : t.start_waiters ≡ d.start_waiters
  finishing : t.finish_waiters ≡ d.finish_waiters
  locked : no_locks t.locks ≡ no_locks d.locks

wait_done-Keeps : (id : ℕ) (d : Drainer) → Keeps d (wait_done id d)
unfolding wait_done
wait_done-Keeps id d = elim (Option-cases (find id d.locks)) [
  | inl e ↦
      rw (e, wait_done) (record { flag = refl; starting = refl; finishing = refl; locked = refl })
  | inr (l, e) ↦
      rw (e, wait_done)
        (record {
          flag = refl;
          starting = refl;
          finishing = refl;
          locked = no_locks-update id _ d.locks;
        })
]

Keeps-trans : (d t u : Drainer) → Keeps d t → Keeps t u → Keeps d u
Keeps-trans d t u k l = record {
  flag = cc (k.flag, l.flag);
  starting = cc (k.starting, l.starting);
  finishing = cc (k.finishing, l.finishing);
  locked = cc (k.locked, l.locked);
}

tell_started-Keeps : (ws : List StartWaiter) (d : Drainer) → Keeps d (tell_started ws d)
unfolding tell_started
tell_started-Keeps [] d = record { flag = refl; starting = refl; finishing = refl; locked = refl }
tell_started-Keeps (other cb ∷ rest) d =
    let k = tell_started-Keeps rest _ in
    record { flag = k.flag; starting = k.starting; finishing = k.finishing; locked = k.locked }
tell_started-Keeps (lock_of id ∷ rest) d =
    Keeps-trans d (wait_done id d) _ (wait_done-Keeps id d)
      (tell_started-Keeps rest (wait_done id d))

add_wait-IsOrderly : (cb : ℕ) (d : Drainer) → IsOrderly d → IsOrderly (add_wait cb d)
unfolding add_wait
add_wait-IsOrderly cb d v = ground arith

lock-IsOrderly : (id : ℕ) (d t : Drainer) → IsOrderly d → lock id d ≡ ok t → IsOrderly t
unfolding lock
lock-IsOrderly id d t v h =
    let (idle, h') = require-eq-ok assertion (not d.draining) _ h in
    let flag : d.draining ≡ false = ground arith in
    subst IsOrderly (ok-injective h')
      (record { before = v.before; during = inl flag; after = inl (no_locks-snoc d.locks _) })

add_lock_wait-IsOrderly :
    (id cb : ℕ) (d : Drainer) → IsOrderly d → IsOrderly (add_lock_wait id cb d)
unfolding add_lock_wait
add_lock_wait-IsOrderly id cb d v =
    let kept = no_locks-update id (λ l. record l { waiters = l.waiters ++ cb ∷ [] }) d.locks in
    ground (arith, kept)

drain-IsOrderly : (self : ℕ) (d : Drainer) → IsOrderly d → IsOrderly (drain self d)
unfolding drain
drain-IsOrderly self d v =
    let k = tell_started-Keeps d.start_waiters (record d { draining = true; start_waiters = [] }) in
    ground (arith, k.flag, k.starting, k.finishing, k.locked)

remove_lock-IsOrderly : (id : ℕ) (d : Drainer) → IsOrderly d → IsOrderly (remove_lock id d)
unfolding remove_lock
remove_lock-IsOrderly id d v = ground arith

forget-nil : (id : ℕ) (ws : List StartWaiter) → ws ≡ [] → forget id ws ≡ []
forget-nil id [] h = refl
forget-nil id (w ∷ ws) h = cc

destroy_lock-IsOrderly :
    (id : ℕ) (d t : Drainer) → IsOrderly d → destroy_lock id d ≡ ok t → IsOrderly t
unfolding destroy_lock
destroy_lock-IsOrderly id d t v h = elim (Option-cases (find id d.locks)) [
  | inl e ↦ cc (rw (e, destroy_lock) at h)
  | inr (l, e) ↦
      let told : Drainer = record d { woken = d.woken ++ notices success l.waiters } in
      let u : IsOrderly told = record { before = v.before; during = v.during; after = v.after } in
      let w = remove_lock-IsOrderly id told u in
      subst IsOrderly (ok-injective (rw (e, destroy_lock) at h)) (record {
        before = w.before;
        during = elim w.during [ inl f ↦ inl f | inr n ↦ inr (forget-nil id _ n) ];
        after = w.after;
      })
]

Step-IsOrderly : {d t : Drainer} → IsOrderly d → Step d t → IsOrderly t
Step-IsOrderly {d} v (waits cb e) = rw e (add_wait-IsOrderly cb d v)
Step-IsOrderly {d} {t} v (locks id e) = lock-IsOrderly id d t v e
Step-IsOrderly {d} v (lock_waits id cb e) = rw e (add_lock_wait-IsOrderly id cb d v)
Step-IsOrderly {d} v (drains self e) = rw e (drain-IsOrderly self d v)
Step-IsOrderly {d} {t} v (unlocks id e) = destroy_lock-IsOrderly id d t v e

-- Whatever is done with a new drainer, nobody waits for the end of a draining that has not started or that
-- no lock holds up any more, and nobody waits for the start of one that has started.
pub Reach-IsOrderly : {d : Drainer} → Reach d → IsOrderly d
unfolding create
Reach-IsOrderly start = record { before = inr refl; during = inl refl; after = inr refl }
Reach-IsOrderly (next r st) = Step-IsOrderly (Reach-IsOrderly r) st
