-- ===== src/Sync/Semaphore/Joins.antt =====
-- src/sync/semaphore.cc: combining acquisitions and waiting for them keep a semaphore valid.
use indecorous.Base.{
  ℕ, ◌+◌, ◌≡◌, ◌≢◌, refl, sym, ◌∙◌, inl, inr, true, false, some, List, [], ◌∷◌, ◌++◌, ok,
  require-eq-ok, assertion, Option-cases, subst, arith,
}
use indecorous.Sync.WaitObject.{Notice}
use indecorous.Sync.Semaphore.{Semaphore, combine, add_wait}
use indecorous.Sync.Semaphore.Lookup.{
  Acq, find, replace, held-attached, total_held, total_held-replace, find-id, find-replace_ne,
  All-find, All-replace,
}
use indecorous.Sync.Semaphore.Pump.{IsWaiting, IsBlocked}
use indecorous.Sync.Semaphore.Conservation.{IsHolding, IsValid, IsValid-of_ok}

module _ (id other : ℕ) (s t : Semaphore) (v : IsValid s) (distinct : id ≢ other) (a b : Acq)
    (ea : find id s.acqs ≡ some a) (eb : find other s.acqs ≡ some b) (attached : a.attached ≡ true)
    (attached' : b.attached ≡ true) where
  -- What the first acquisition becomes, and what is left of the other.
  abbrev joined : Acq
  joined = record a { owned = a.owned + b.owned; waiters = a.waiters ++ b.waiters }

  abbrev emptied : Acq
  emptied = record b { attached = false; waiters = [] }

  combined_held : total_held (replace emptied (replace joined s.acqs)) ≡ total_held s.acqs
  combined_held =
      let apart : joined.id ≢ other = λ e. distinct (sym (find-id id s.acqs a ea) ∙ e) in
      omega (
        arith,
        total_held-replace id s.acqs a joined (find-id id s.acqs a ea) ea,
        total_held-replace other (replace joined s.acqs) b emptied (find-id other s.acqs b eb)
            (find-replace_ne other s.acqs joined apart ∙ eb),
        held-attached a attached,
        held-attached joined attached,
        held-attached b attached',
      )

  combined-IsValid : IsValid (record s { acqs = replace emptied (replace joined s.acqs) })
  combined-IsValid = record {
    sound = record {
      conserved = omega (arith, combined_held, v.sound.conserved);
      waiting = v.sound.waiting;
      holding =
          All-replace IsHolding _ emptied (All-find IsHolding other s.acqs b eb v.sound.holding) (
            All-replace IsHolding s.acqs joined (All-find IsHolding id s.acqs a ea v.sound.holding)
              v.sound.holding);
      fits = v.sound.fits;
    };
    blocked = v.blocked;
  }

pub combine-IsValid :
    (id other : ℕ) (s t : Semaphore)
    → IsValid s
    → id ≢ other
    → combine id other s ≡ ok t
    → IsValid t
unfolding combine
combine-IsValid id other s t v distinct h = elim (Option-cases (find id s.acqs)) [
  | inl e ↦ cc (rw (e, combine) at h)
  | inr (a, e) ↦ elim (Option-cases (find other s.acqs)) [
    | inl e' ↦ cc (rw (e, e', combine) at h)
    | inr (b, e') ↦
        let (attached, h') = require-eq-ok assertion a.attached _ (rw (e, e', combine) at h) in
        let (attached', h'') = require-eq-ok assertion b.attached _ h' in
        IsValid-of_ok t
          (_, refl, combined-IsValid id other s t v distinct a b e e' attached attached') h''
  ]
]

-- Writing to an entry of the queue that wants what it wanted before leaves the queue blocked.
IsBlocked-replace :
    (available : ℕ) (xs : List Acq) (a b : Acq)
    → find b.id xs ≡ some a
    → b.pending ≡ a.pending
    → IsBlocked available xs
    → IsBlocked available (replace b xs)
unfolding find replace
IsBlocked-replace available [] a b e h k = tt
IsBlocked-replace available (c ∷ cs) a b e h k = ground arith

module _ (id cb : ℕ) (s : Semaphore) (v : IsValid s) where
  told-IsValid : (log : List Notice) → IsValid (record s { woken = log })
  told-IsValid log = record {
    sound = record {
      conserved = v.sound.conserved;
      waiting = v.sound.waiting;
      holding = v.sound.holding;
      fits = v.sound.fits;
    };
    blocked = v.blocked;
  }

  watched-IsValid :
      (a : Acq)
      → find id s.pending ≡ some a
      → IsValid
          (record s { pending = replace (record a { waiters = a.waiters ++ cb ∷ [] }) s.pending })
  watched-IsValid a e =
      let w = All-find IsWaiting id s.pending a e v.sound.waiting in
      let found : find a.id s.pending ≡ some a =
        subst (λ i. find i s.pending ≡ some a) (sym (find-id id s.pending a e)) e in
      record {
        sound = record {
          conserved = v.sound.conserved;
          waiting =
              All-replace IsWaiting s.pending _
                (record { wants = w.wants; owns = w.owns; attached = w.attached }) v.sound.waiting;
          holding = v.sound.holding;
          fits = v.sound.fits;
        };
        blocked =
            IsBlocked-replace s.available s.pending a (record a { waiters = a.waiters ++ cb ∷ [] })
              found refl v.blocked;
      }

pub add_wait-IsValid :
    (id cb : ℕ) (s t : Semaphore) → IsValid s → add_wait id cb s ≡ ok t → IsValid t
unfolding add_wait
add_wait-IsValid id cb s t v h = elim (Option-cases (find id s.acqs)) [
  | inr (a, e) ↦
      let (_, h') = require-eq-ok assertion a.attached _ (rw (e, add_wait) at h) in
      IsValid-of_ok t (_, refl, told-IsValid id cb s v _) h'
  | inl e ↦ elim (Option-cases (find id s.pending)) [
    | inl e' ↦ cc (rw (e, e', add_wait) at h)
    | inr (a, e') ↦
        let (_, h') = require-eq-ok assertion a.attached _ (rw (e, e', add_wait) at h) in
        IsValid-of_ok t (_, refl, watched-IsValid id cb s v a e') h'
  ]
]
