-- ===== src/Sync/Semaphore/Conservation.antt =====
-- src/sync/semaphore.cc: what every operation keeps, whatever the history.
use indecorous.Base.{
  ℕ, ◌+◌, ◌-◌, ◌%◌, ◌≤◌, ◌<◌, ◌≡◌, refl, ap, inl, inr, true, some, List, [], ◌∷◌, ◌++◌, map, All,
  All-append, All-of_append, Result, ok, require-eq-ok, assertion, leb, leb→le, Bool-cases,
  Option-cases, subst, arith,
}
use indecorous.Sync.Semaphore.{Semaphore, create, start_acq, pump_waiters, give_back, release, word}
use indecorous.Sync.Semaphore.Lookup.{
  Acq, held-attached, find, replace, held-attached, total_held, total_held-append,
  total_held-replace, find-id, All-find, All-replace,
}
use indecorous.Sync.Semaphore.Pump.{
  IsWaiting, granted, total_pending, IsBlocked, Serves, pump_waiters-Serves,
}

abbrev pub IsHolding : Acq → Type 0
IsHolding a = a.pending ≡ 0

-- What is available and what is held make up the capacity, and the lists hold what they are for.
pub record IsSound (s : Semaphore) : Type 0 where
  pub conserved : s.available + total_held s.acqs ≡ s.capacity
  pub waiting : All IsWaiting s.pending
  pub holding : All IsHolding s.acqs
  pub fits : s.capacity < word

-- Besides, nobody waits who could be served next.
pub record IsValid (s : Semaphore) : Type 0 where
  pub sound : IsSound s
  pub blocked : IsBlocked s.available s.pending

total_held-granted :
    (xs : List Acq) → All IsWaiting xs → total_held (map granted xs) ≡ total_pending xs
total_held-granted [] h = refl
total_held-granted (a ∷ xs) h = rw h.0.attached (omega (arith, h.0.owns, total_held-granted xs h.1))

All-granted : (xs : List Acq) → All IsHolding (map granted xs)
All-granted [] = tt
All-granted (a ∷ xs) = (refl, All-granted xs)

-- Serving the queue of a sound semaphore makes it valid.
Serves-IsValid : (s t : Semaphore) → IsSound s → Serves s.pending s t → IsValid t
Serves-IsValid s t v r = record {
  sound = record {
    conserved = omega (
      arith,
      r.paid,
      r.same_capacity,
      ap total_held r.moved,
      total_held-append s.acqs (map granted r.served),
      total_held-granted r.served parts.0,
      v.conserved,
    );
    waiting = parts.1;
    holding =
        rw r.moved
          (All-append IsHolding s.acqs (map granted r.served) v.holding (All-granted r.served));
    fits = rw r.same_capacity v.fits;
  };
  blocked = r.blocked;
}
  where
    parts : All IsWaiting r.served × All IsWaiting t.pending
    parts = All-of_append IsWaiting r.served t.pending (subst (All IsWaiting) r.in_order v.waiting)

pub pump_waiters-IsValid :
    (s : Semaphore) → IsSound s → (t : Semaphore) × (pump_waiters s ≡ ok t) × IsValid t
pump_waiters-IsValid s v =
    let (t, e, r) = pump_waiters-Serves s v.waiting in (t, e, Serves-IsValid s t v r)

-- What comes back with `count` added is sound, so the queue is served.
pub give_back-IsValid :
    (count : ℕ) (s : Semaphore)
    → IsSound (record s { available = s.available + count })
    → (t : Semaphore) × (give_back count s ≡ ok t) × IsValid t
unfolding give_back
give_back-IsValid count s v =
    let e : (s.available + count) % word ≡ s.available + count =
      omega (arith, v.conserved, v.fits) in
    rw e (pump_waiters-IsValid (record s { available = s.available + count }) v)

pub create-IsValid : (capacity : ℕ) → capacity < word → IsValid (create capacity)
unfolding create
create-IsValid capacity h = record {
  sound = record { conserved = omega arith; waiting = tt; holding = tt; fits = h };
  blocked = tt;
}

-- A newcomer at the end of a blocked queue leaves it blocked.
IsBlocked-snoc :
    (available : ℕ) (xs : List Acq) (a : Acq)
    → IsBlocked available xs
    → available < a.pending
    → IsBlocked available (xs ++ a ∷ [])
IsBlocked-snoc available [] a b h = h
IsBlocked-snoc available (x ∷ xs) a b h = b

IsBlocked-le : (m n : ℕ) (xs : List Acq) → m ≤ n → IsBlocked n xs → IsBlocked m xs
IsBlocked-le m n [] h b = tt
IsBlocked-le m n (x ∷ xs) h b = omega arith

pub start_acq-IsValid : (id count : ℕ) (s : Semaphore) → IsValid s → IsValid (start_acq id count s)
unfolding start_acq
start_acq-IsValid id count s v = elim (Bool-cases (leb count s.available)) [
  | inl enough ↦ rw enough (record {
    sound = record {
      conserved =
          omega
            (arith, leb→le count s.available enough, total_held-append s.acqs, v.sound.conserved);
      waiting = v.sound.waiting;
      holding = All-append IsHolding s.acqs _ v.sound.holding (refl, tt);
      fits = v.sound.fits;
    };
    blocked = IsBlocked-le (s.available - count) s.available s.pending (omega arith) v.blocked;
  })
  | inr short ↦ rw short (record {
    sound = record {
      conserved = v.sound.conserved;
      waiting =
          All-append IsWaiting s.pending _ v.sound.waiting
            (record { wants = ground arith; owns = refl; attached = refl }, tt);
      holding = v.sound.holding;
      fits = v.sound.fits;
    };
    blocked = IsBlocked-snoc s.available s.pending _ v.blocked (ground arith);
  })
]

-- A call that is known to end well in a valid state ends in the state that it ends in.
pub IsValid-of_ok :
    {m : Result Semaphore} (t : Semaphore)
    → (u : Semaphore) × (m ≡ ok u) × IsValid u
    → m ≡ ok t
    → IsValid t
IsValid-of_ok t (u, e, v) h = let q : u ≡ t = cc in subst IsValid q v

module _ (id count : ℕ) (s t : Semaphore) (v : IsValid s) (a : Acq) where
  -- The acquisition with `count` less.
  abbrev less : Acq
  less = record a { owned = a.owned - count }

  release_held-IsValid :
      find id s.acqs ≡ some a
      → a.attached ≡ true
      → count ≤ a.owned
      → give_back count (record s { acqs = replace (record a { owned = a.owned - count }) s.acqs })
        ≡ ok t
      → IsValid t
  release_held-IsValid e attached enough = IsValid-of_ok t (
      give_back-IsValid count _ (record {
        conserved = omega (
          arith,
          total_held-replace id s.acqs a less (find-id id s.acqs a e) e,
          held-attached a attached,
          held-attached less attached,
          v.sound.conserved,
        );
        waiting = v.sound.waiting;
        holding =
            All-replace IsHolding s.acqs _ (All-find IsHolding id s.acqs a e v.sound.holding)
              v.sound.holding;
        fits = v.sound.fits;
      }))

  release_waiting-IsValid :
      find id s.pending ≡ some a
      → count ≤ a.owned
      → give_back count
          (record s { pending = replace (record a { owned = a.owned - count }) s.pending })
        ≡ ok t
      → IsValid t
  release_waiting-IsValid e enough =
      let w = All-find IsWaiting id s.pending a e v.sound.waiting in
      IsValid-of_ok t (
        give_back-IsValid count _ (record {
          conserved = omega (arith, w.owns, v.sound.conserved);
          waiting =
              All-replace IsWaiting s.pending _
                (record { wants = w.wants; owns = omega (arith, w.owns); attached = w.attached })
                v.sound.waiting;
          holding = v.sound.holding;
          fits = v.sound.fits;
        }))

-- `release` keeps a semaphore valid, whenever it passes its assertions.
pub release-IsValid :
    (id count : ℕ) (s t : Semaphore) → IsValid s → release id count s ≡ ok t → IsValid t
unfolding release
release-IsValid id count s t v h = elim (Option-cases (find id s.acqs)) [
  | inr (a, e) ↦
      let (attached, h') = require-eq-ok assertion a.attached _ (rw (e, release) at h) in
      let (enough, h'') = require-eq-ok assertion (leb count a.owned) _ h' in
      release_held-IsValid id count s t v a e attached (leb→le count a.owned enough) h''
  | inl e ↦ elim (Option-cases (find id s.pending)) [
    | inl e' ↦ cc (rw (e, e', release) at h)
    | inr (a, e') ↦
        let (attached, h') = require-eq-ok assertion a.attached _ (rw (e, e', release) at h) in
        let (enough, h'') = require-eq-ok assertion (leb count a.owned) _ h' in
        release_waiting-IsValid id count s t v a e' (leb→le count a.owned enough) h''
  ]
]
