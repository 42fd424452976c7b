-- ===== src/Sync/Semaphore/Calls.antt =====
-- src/sync/semaphore.cc: destruction, extension and removal keep a semaphore valid.
use indecorous.Base.{
  ℕ, ◌+◌, ◌-◌, ◌%◌, ◌<◌, ◌≡◌, refl, inl, inr, true, some, ok, require-eq-ok, assertion, Bool-cases,
  Option-cases, arith,
}
use indecorous.Sync.Semaphore.{
  Semaphore, give_back, destroy, extend, remove, invalidate, word, within,
}
use indecorous.Sync.Semaphore.Lookup.{
  Acq, find, erase, held-attached, total_held-erase, total_held-replace, find-id, All-find,
  All-erase, All-replace,
}
use indecorous.Sync.Semaphore.Pump.{IsWaiting}
use indecorous.Sync.Semaphore.Conservation.{
  IsHolding, IsValid, IsValid-of_ok, give_back-IsValid, pump_waiters-IsValid,
}

module _ (id : ℕ) (s t : Semaphore) (v : IsValid s) (a : Acq) where
  destroy_held-IsValid :
      find id s.acqs ≡ some a
      → a.attached ≡ true
      → give_back a.owned (record s { acqs = erase id s.acqs }) ≡ ok t
      → IsValid t
  destroy_held-IsValid e attached = IsValid-of_ok t (
      give_back-IsValid a.owned _ (record {
        conserved =
            omega
              (arith, total_held-erase id s.acqs a e, held-attached a attached, v.sound.conserved);
        waiting = v.sound.waiting;
        holding = All-erase IsHolding id s.acqs v.sound.holding;
        fits = v.sound.fits;
      }))

  destroy_waiting-IsValid :
      find id s.pending ≡ some a
      → give_back a.owned (record s { pending = erase id s.pending }) ≡ ok t
      → IsValid t
  destroy_waiting-IsValid e =
      let w = All-find IsWaiting id s.pending a e v.sound.waiting in
      IsValid-of_ok t (
        give_back-IsValid a.owned _ (record {
          conserved = omega (arith, w.owns, v.sound.conserved);
          waiting = All-erase IsWaiting id s.pending v.sound.waiting;
          holding = v.sound.holding;
          fits = v.sound.fits;
        }))

pub destroy-IsValid : (id : ℕ) (s t : Semaphore) → IsValid s → destroy id s ≡ ok t → IsValid t
unfolding destroy
destroy-IsValid id s t v h = elim (Option-cases (find id s.acqs)) [
  | inr (a, e) ↦ elim (Bool-cases a.attached) [
    | inl attached ↦ destroy_held-IsValid id s t v a e attached (rw (e, destroy, attached) at h)
    | inr detached ↦ cc (rw (e, destroy, detached) at h)
  ]
  | inl e ↦ elim (Option-cases (find id s.pending)) [
    | inl e' ↦ cc (rw (e, e', destroy) at h)
    | inr (a, e') ↦ destroy_waiting-IsValid id s t v a e' (rw (e, e', destroy) at h)
  ]
]

pub extend-IsValid :
    (count : ℕ) (s t : Semaphore)
    → IsValid s
    → s.capacity + count < word
    → extend count s ≡ ok t
    → IsValid t
unfolding extend
extend-IsValid count s t v fits =
    let c : (s.capacity + count) % word ≡ s.capacity + count = omega arith in
    let a : (s.available + count) % word ≡ s.available + count = omega (arith, v.sound.conserved) in
    rw (c, a)
      (IsValid-of_ok t (
        pump_waiters-IsValid _ (record {
          conserved = omega (arith, v.sound.conserved);
          waiting = v.sound.waiting;
          holding = v.sound.holding;
          fits = fits;
        })))

pub remove-IsValid : (id : ℕ) (s t : Semaphore) → IsValid s → remove id s ≡ ok t → IsValid t
unfolding remove
remove-IsValid id s t v h = elim (Option-cases (find id s.acqs)) [
  | inl e ↦ cc (rw (e, remove) at h)
  | inr (a, e) ↦
      let (attached, h') = require-eq-ok assertion a.attached _ (rw (e, remove) at h) in
      let (_, h'') = require-eq-ok assertion (within (s.capacity - a.owned) s.pending) _ h' in
      IsValid-of_ok t
        (
          _,
          refl,
          record {
            sound = record {
              conserved = omega (
                arith,
                total_held-replace id s.acqs a (invalidate a) (find-id id s.acqs a e) e,
                held-attached a attached,
                v.sound.conserved,
              );
              waiting = v.sound.waiting;
              holding = All-replace IsHolding s.acqs (invalidate a) refl v.sound.holding;
              fits = omega (arith, v.sound.fits);
            };
            blocked = v.blocked;
          },
        )
        h''
]
