-- ===== src/Sync/Semaphore/Detached.antt =====
-- src/sync/semaphore.cc: acquisitions that are invalidated stay linked in `m_acqs`; and newcomers.
use indecorous.Base.{
  ◌⊎◌, ◌∷◌, ◌<◌, ◌++◌, ◌+◌, ◌-◌, ◌≤◌, ◌≢◌, sym, ◌∙◌, true, none, List, [], le→leb, lt→ltb, ltb,
  Bool-cases, ℕ, ◌≡◌, refl, inl, inr, false, some, ok, err, require-eq-ok, ok-injective, assertion,
  Option-cases, subst, arith,
}
use indecorous.Sync.WaitObject.{notices, object_lost}
use indecorous.Sync.Semaphore.{
  Semaphore, start_acq, destroy, remove, combine, resize, invalidate, within,
}
use indecorous.Sync.Semaphore.Lookup.{
  Acq, find, replace, find-id, find-snoc, find-replace_self, find-replace_ne,
}
use indecorous.Sync.Semaphore.Pump.{IsBlocked}
use indecorous.Sync.Semaphore.Conservation.{IsValid}

-- An acquisition that is linked and detached cannot be destroyed.
destroy_detached :
    (id : ℕ) (s : Semaphore) (a : Acq)
    → find id s.acqs ≡ some a
    → a.attached ≡ false
    → destroy id s ≡ err assertion
unfolding destroy
destroy_detached id s a e detached = rw (e, destroy, detached)

-- After `remove`, the destructor of the acquisition fails the assertion that it is in no list.
pub destroy-remove : (id : ℕ) (s t : Semaphore) → remove id s ≡ ok t → destroy id t ≡ err assertion
unfolding remove
destroy-remove id s t h = elim (Option-cases (find id s.acqs)) [
  | inl e ↦ cc (rw (e, remove) at h)
  | inr (a, e) ↦
      let (_, h') = require-eq-ok assertion a.attached _ (rw (e, remove) at h) in
      let (_, h'') = require-eq-ok assertion (within (s.capacity - a.owned) s.pending) _ h' in
      let linked = find-replace_self id s.acqs a (invalidate a) (find-id id s.acqs a e) e in
      destroy_detached id t (invalidate a)
        (subst (λ u. find id u.acqs ≡ some (invalidate a)) (ok-injective h'') linked) refl
]

-- After `combine` of two distinct acquisitions, the destructor of the one that was combined into the
-- other fails the assertion that it is in no list.
destroy-combine :
    (id other : ℕ) (s t : Semaphore)
    → id ≢ other
    → combine id other s ≡ ok t
    → destroy other t ≡ err assertion
unfolding combine
destroy-combine id other s t distinct h = elim (Option-cases (find id s.acqs)) [
  | inl e ↦ cc (rw (e, combine) at h)
  | inr (a, e) ↦ elim (Option-cases (find other s.acqs)) [
    | inl e' ↦ cc (rw (e, e', combine) at h)
    | inr (b, e') ↦
        let (_, h') = require-eq-ok assertion a.attached _ (rw (e, e', combine) at h) in
        let (_, h'') = require-eq-ok assertion b.attached _ h' in
        let joined = record a { owned = a.owned + b.owned; waiters = a.waiters ++ b.waiters } in
        let left = record b { attached = false; waiters = [] } in
        let apart : joined.id ≢ other = λ q. distinct (sym (find-id id s.acqs a e) ∙ q) in
        let linked =
          find-replace_self other (replace joined s.acqs) b left (find-id other s.acqs b e')
            (find-replace_ne other s.acqs joined apart ∙ e') in
        destroy_detached other t left
          (subst (λ u. find other u.acqs ≡ some left) (ok-injective h'') linked) refl
  ]
]

-- The acquisition that `resize` makes when what it asks for is there.
started :
    (id count : ℕ) (s : Semaphore)
    → find id s.acqs ≡ none
    → count ≤ s.available
    → (a : Acq) × (find id (start_acq id count s).acqs ≡ some a) × (a.attached ≡ true)
unfolding start_acq
started id count s unused enough =
    let a : Acq = record { id = id; owned = count; pending = 0; attached = true; waiters = [] } in
    (a, rw (le→leb count s.available enough) (find-snoc id s.acqs a unused refl), refl)

remove_fault :
    (id : ℕ) (s : Semaphore) (a : Acq)
    → find id s.acqs ≡ some a
    → a.attached ≡ true
    → ((t : Semaphore) × (remove id s ≡ ok t)) ⊎ (remove id s ≡ err assertion)
unfolding remove
remove_fault id s a e attached = elim (Bool-cases (within (s.capacity - a.owned) s.pending)) [
  | inl fits ↦ inl (
    record s {
      capacity = s.capacity - a.owned;
      acqs = replace (invalidate a) s.acqs;
      woken = s.woken ++ notices object_lost a.waiters;
    },
    rw (e, remove, attached, fits),
  )
  | inr over ↦ inr (rw (e, remove, attached, over))
]

-- A `resize` to less that finds the difference available always fails an assertion: that of `remove`
-- if somebody waits for more than the new capacity, or else that of its own acquisition's destructor.
pub resize_shrink :
    (id new_capacity : ℕ) (s : Semaphore)
    → find id s.acqs ≡ none
    → new_capacity < s.capacity
    → s.capacity - new_capacity ≤ s.available
    → resize id new_capacity s ≡ err assertion
unfolding resize
resize_shrink id new_capacity s unused smaller enough =
    let (a, e, attached) = started id (s.capacity - new_capacity) s unused enough in
    let u = start_acq id (s.capacity - new_capacity) s in
    let grows : ltb s.capacity new_capacity ≡ false = ground arith in
    rw
      (
        grows,
        lt→ltb new_capacity s.capacity smaller,
        le→leb (s.capacity - new_capacity) s.available enough,
      )
      (elim (remove_fault id u a e attached) [
        | inl (t, removed) ↦ rw (removed, destroy-remove id u t removed)
        | inr failed ↦ rw failed
      ])

-- In a valid semaphore whose queue is not empty, a newcomer that asks for no more than is available is
-- served at once. It asks for less than the first in the queue, which stays where it is and now finds
-- less available.
start_acq_overtakes :
    (id count : ℕ) (s : Semaphore) (w : Acq) (ws : List Acq)
    → IsValid s
    → s.pending ≡ w ∷ ws
    → count ≤ s.available
    → let t = start_acq id count s in
      (t.acqs
        ≡ s.acqs
          ++ record { id = id; owned = count; pending = 0; attached = true; waiters = [] } ∷ [])
      × (t.pending ≡ w ∷ ws)
      × (t.available + count ≡ s.available)
      × (count < w.pending)
unfolding start_acq
start_acq_overtakes id count s w ws v queue enough =
    let first : s.available < w.pending = subst (IsBlocked s.available) queue v.blocked in
    rw (le→leb count s.available enough) (refl, queue, omega arith, omega arith)
