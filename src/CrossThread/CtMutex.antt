-- ===== src/CrossThread/CtMutex.antt =====
-- src/cross_thread/ct_mutex.hpp and ct_mutex.cc: a mutex between threads. An acquisition is the address
-- of its object. What runs under the spinlock is one step; between two steps any thread may take one.
pub mod Exclusion
use indecorous.Base.{
  ℕ, Bool, true, false, not, Option, none, some, List, [], ◌∷◌, ◌++◌, ◌==◌, if◌then◌else◌,
}

-- `cross_thread_mutex_t`: the queue; the acquisitions that were found at the front and whose `ready()` has
-- not run yet; those with `m_has`; those that `release_lock` has found and not sent `notify` for yet; and the
-- `notify` calls on their way.
pub record CtMutex : Type 0 where
  pub locks : List ℕ
  pub readying : List ℕ
  pub holding : List ℕ
  pub sending : List ℕ
  pub in_flight : List ℕ

-- `m_locks.front()`
abbrev pub front : List ℕ → Option ℕ
front [] = none
front (f ∷ rest) = some f

abbrev pub is_front : ℕ → List ℕ → Bool
is_front id [] = false
is_front id (f ∷ rest) = f == id

abbrev pub tail : List ℕ → List ℕ
tail [] = []
tail (f ∷ rest) = rest

-- The first occurrence taken out, and every one.
abbrev pub take_out : ℕ → List ℕ → List ℕ
take_out id [] = []
take_out id (x ∷ xs) = if x == id then xs else x ∷ take_out id xs

abbrev pub without : ℕ → List ℕ → List ℕ
without id [] = []
without id (x ∷ xs) = if x == id then without id xs else x ∷ without id xs

abbrev pub listed : Option ℕ → List ℕ
listed none = []
listed (some next) = next ∷ []

-- `cross_thread_mutex_t()`
unfoldable pub create : CtMutex
create = record { locks = []; readying = []; holding = []; sending = []; in_flight = [] }

-- `add_lock`, up to the call of `ready()`
unfoldable pub add_lock : ℕ → CtMutex → CtMutex
add_lock id m =
    let locks = m.locks ++ id ∷ [] in
    record m { locks = locks; readying = if is_front id locks then id ∷ m.readying else m.readying }

-- `cross_thread_mutex_acq_t::ready`
unfoldable pub ready : ℕ → CtMutex → CtMutex
ready id m = record m { readying = without id m.readying; holding = id ∷ m.holding }

-- `release_lock`, by the destructor of the acquisition, up to the call of `notify`
unfoldable pub release_lock : ℕ → CtMutex → CtMutex
release_lock id m =
    if is_front id m.locks
    then record m {
      locks = tail m.locks;
      holding = without id m.holding;
      sending = m.sending ++ listed (front (tail m.locks));
    }
    else record m { locks = take_out id m.locks; holding = without id m.holding }

-- The call of `notify`, at the end of `release_lock`
unfoldable pub send_notify : ℕ → CtMutex → CtMutex
send_notify id m = record m { sending = take_out id m.sending; in_flight = m.in_flight ++ id ∷ [] }

-- `cross_thread_notification`, up to the call of `ready()`
unfoldable pub notification : ℕ → CtMutex → CtMutex
notification id m = record m {
  in_flight = take_out id m.in_flight;
  readying = if is_front id m.locks then id ∷ m.readying else m.readying;
}
