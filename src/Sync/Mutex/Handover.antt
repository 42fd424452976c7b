-- ===== src/Sync/Mutex/Handover.antt =====
-- src/sync/mutex.cc: who holds the mutex, and who is told of it.
use indecorous.Base.{
  ℕ, ◌≡◌, refl, false, List, [], ◌∷◌, ◌++◌, ok, ◌==◌, Bool-cases, Option-cases, ok-injective, inl,
  inr, subst,
}
use indecorous.Sync.Mutex.{
  Lock, Mutex, find, erase, update, create, start_acq, has, ready_front, release_lock, destroy,
  add_wait, remove_wait, move_acq,
}

-- Nobody waits on the acquisition that holds the mutex.
abbrev pub IsSettled : List Lock → Type 0
IsSettled [] = Unit {0}
IsSettled (l ∷ rest) = l.waiters ≡ []

pub data Step (m t : Mutex) : Type 0 where
  starts : (id : ℕ) → t ≡ start_acq id m → Step m t
  destroys : (id : ℕ) → destroy id m ≡ ok t → Step m t
  waits : (id cb : ℕ) → t ≡ add_wait id cb m → Step m t
  unwaits : (id cb : ℕ) → t ≡ remove_wait id cb m → Step m t
  moves : (id other : ℕ) → t ≡ move_acq id other m → Step m t

pub data Reach : Mutex → Type 0 where
  start : Reach create
  next : {m t : Mutex} → Reach m → Step m t → Reach t

start_acq-IsSettled : (id : ℕ) (m : Mutex) → IsSettled m.locks → IsSettled (start_acq id m).locks
unfolding start_acq
start_acq-IsSettled id m h = go m.locks h
  where
    go : (ls : List Lock) → IsSettled ls → IsSettled (ls ++ record { id = id; waiters = [] } ∷ [])
    go [] h = refl
    go (l ∷ rest) h = h

erase_behind :
    (id : ℕ) (ls : List Lock) → has id ls ≡ false → IsSettled ls → IsSettled (erase id ls)
unfolding has
erase_behind id [] e h = tt
erase_behind id (l ∷ rest) e h = rw e h

ready_front-IsSettled : (m : Mutex) (ls : List Lock) → IsSettled (ready_front m ls).locks
unfolding ready_front
ready_front-IsSettled m [] = tt
ready_front-IsSettled m (l ∷ rest) = refl

release_lock-IsSettled :
    (id : ℕ) (m : Mutex) → IsSettled m.locks → IsSettled (release_lock id m).locks
unfolding release_lock
release_lock-IsSettled id m h = elim (Bool-cases (has id m.locks)) [
  | inl e ↦ rw e (ready_front-IsSettled m (erase id m.locks))
  | inr e ↦ rw e (erase_behind id m.locks e h)
]

destroy-IsSettled :
    (id : ℕ) (m t : Mutex) → IsSettled m.locks → destroy id m ≡ ok t → IsSettled t.locks
unfolding destroy
destroy-IsSettled id m t h e = elim (Option-cases (find id m.locks)) [
  | inl none_there ↦ cc (rw (none_there, destroy) at e)
  | inr (l, there) ↦
      subst (λ u. IsSettled u.locks) (ok-injective (rw (there, destroy) at e))
        (release_lock-IsSettled id m h)
]

update_behind :
    (id : ℕ) (f : Lock → Lock) (ls : List Lock)
    → has id ls ≡ false
    → IsSettled ls
    → IsSettled (update id f ls)
unfolding has
update_behind id f [] e h = tt
update_behind id f (l ∷ rest) e h = rw e h

update_any :
    (id : ℕ) (f : Lock → Lock) (ls : List Lock)
    → ((l : Lock) → l.waiters ≡ [] → (f l).waiters ≡ [])
    → IsSettled ls
    → IsSettled (update id f ls)
update_any id f [] k h = tt
update_any id f (l ∷ rest) k h = elim (Bool-cases (l.id == id)) [
  | inl e ↦ rw e (k l h)
  | inr e ↦ rw e h
]

add_wait-IsSettled :
    (id cb : ℕ) (m : Mutex) → IsSettled m.locks → IsSettled (add_wait id cb m).locks
unfolding add_wait
add_wait-IsSettled id cb m h = elim (Bool-cases (has id m.locks)) [
  | inl e ↦ rw e h
  | inr e ↦ rw e (update_behind id _ m.locks e h)
]

pub Step-IsSettled : {m t : Mutex} → IsSettled m.locks → Step m t → IsSettled t.locks
unfolding remove_wait move_acq
Step-IsSettled {m} h (starts id e) = rw e (start_acq-IsSettled id m h)
Step-IsSettled {m} {t} h (destroys id e) = destroy-IsSettled id m t h e
Step-IsSettled {m} h (waits id cb e) = rw e (add_wait-IsSettled id cb m h)
Step-IsSettled {m} h (unwaits id cb e) = rw e (update_any id _ m.locks (λ l k. rw k) h)
Step-IsSettled {m} h (moves id other e) = rw e (update_any other _ m.locks (λ l k. refl) h)

-- Whatever happened to a mutex, nobody waits on the acquisition at the front, which holds it.
Reach-IsSettled : {m : Mutex} → Reach m → IsSettled m.locks
unfolding create
Reach-IsSettled start = tt
Reach-IsSettled (next r st) = Step-IsSettled (Reach-IsSettled r) st
