-- ===== src/Sync/Semaphore.antt =====
-- src/sync/semaphore.hpp and semaphore.cc. An acquisition (`semaphore_acq_t`) is a record with the
-- address of the object; the intrusive lists hold these records, so a linked object is an entry.
pub mod Lookup
pub mod Pump
pub mod Conservation
pub mod Calls
pub mod Joins
pub mod History
pub mod Detached
use indecorous.Base.{
  ℕ, suc, ◌+◌, ◌-◌, ◌%◌, ◌^◌, ◌≡◌, refl, Bool, true, false, not, Option, none, some, List, [], ◌∷◌,
  ◌++◌, Result, ok, err, undefined, assertion, assert, ◌>>=◌, ◌>>◌, leb, ltb, ◌==◌, ◌&&◌,
  if◌then◌else◌,
}
use indecorous.Sync.WaitObject.{WaitResult, success, object_lost, Notice, notices}
use Lookup.{Acq, find, erase, replace}

-- `semaphore_t`, with the log of the callbacks that were run.
pub record Semaphore : Type 0 where
  pub capacity : ℕ
  pub available : ℕ
  pub acqs : List Acq
  pub pending : List Acq
  pub woken : List Notice

-- `semaphore_t(size_t)`
unfoldable pub create : ℕ → Semaphore
create capacity = record {
  capacity = capacity;
  available = capacity;
  acqs = [];
  pending = [];
  woken = [];
}

-- `semaphore_acq_t::ready`
unfoldable pub ready : Acq → Result (Acq × List Notice)
ready a = do
  assert a.attached
  assert (ltb 0 a.pending)
  ok (
    record a { owned = a.owned + a.pending; pending = 0; waiters = [] },
    notices success a.waiters,
  )

-- `pump_waiters`: the list is what the loop has not popped.
unfoldable pub pump_loop : List Acq → Semaphore → Result Semaphore
unfolding ready
pump_loop [] s = ok (record s { pending = [] })
pump_loop (a ∷ rest) s =
    let next = (do
      (a', notes) ← ready a
      pump_loop rest (record s {
        available = s.available - a.pending;
        acqs = s.acqs ++ a' ∷ [];
        woken = s.woken ++ notes;
      })) in
    if leb a.pending s.available then next else ok (record s { pending = a ∷ rest })

unfoldable pub pump_waiters : Semaphore → Result Semaphore
unfolding pump_loop
pump_waiters s = pump_loop s.pending s

-- `semaphore_acq_t(count, parent)`, by `start_acq`: `id` is the address of the new object.
unfoldable pub start_acq : ℕ → ℕ → Semaphore → Semaphore
start_acq id count s =
    if leb count s.available
    then record s {
      available = s.available - count;
      acqs =
          s.acqs
          ++ record { id = id; owned = count; pending = 0; attached = true; waiters = [] } ∷ [];
    }
    else record s {
      pending =
          s.pending
          ++ record { id = id; owned = 0; pending = count; attached = true; waiters = [] } ∷ [];
    }

-- `size_t` arithmetic.
abbrev pub word : ℕ
word = 2 ^ 64

-- The rest of `semaphore_acq_t::release` once the acquisition has given `count` up.
unfoldable pub give_back : ℕ → Semaphore → Result Semaphore
unfolding pump_waiters
give_back count s = pump_waiters (record s { available = (s.available + count) % word })

-- `semaphore_acq_t::release`, on an acquisition that waits or holds.
unfoldable pub release : ℕ → ℕ → Semaphore → Result Semaphore
unfolding give_back
release id count s = elim (find id s.acqs) [
  | some a ↦ (do
    assert a.attached
    assert (leb count a.owned)
    give_back count (record s { acqs = replace (record a { owned = a.owned - count }) s.acqs }))
  | none ↦ elim (find id s.pending) [
    | some a ↦ (do
      assert a.attached
      assert (leb count a.owned)
      give_back count
          (record s { pending = replace (record a { owned = a.owned - count }) s.pending }))
    | none ↦ err undefined
  ]
]

-- `semaphore_acq_t::~semaphore_acq_t`, with the assertion of `~intrusive_node_t` behind it: an object
-- that is detached from the semaphore and still linked in its list fails it.
unfoldable pub destroy : ℕ → Semaphore → Result Semaphore
unfolding give_back
destroy id s = elim (find id s.acqs) [
  | some a ↦
      if a.attached then give_back a.owned (record s { acqs = erase id s.acqs }) else err assertion
  | none ↦ elim (find id s.pending) [
    | some a ↦ give_back a.owned (record s { pending = erase id s.pending })
    | none ↦ err undefined
  ]
]

-- `semaphore_t::extend`
unfoldable pub extend : ℕ → Semaphore → Result Semaphore
unfolding pump_waiters
extend count s =
    pump_waiters (record s {
      capacity = (s.capacity + count) % word;
      available = (s.available + count) % word;
    })

-- `semaphore_acq_t::invalidate`
abbrev pub invalidate : Acq → Acq
invalidate a = record a { owned = 0; pending = 0; attached = false; waiters = [] }

-- The debug scan of `remove`: nobody waits for more than the capacity that is left.
abbrev pub within : ℕ → List Acq → Bool
within capacity [] = true
within capacity (a ∷ rest) = leb (a.owned + a.pending) capacity && within capacity rest

-- `semaphore_t::remove` of an acquisition that no longer waits. The object stays linked in `m_acqs`.
unfoldable pub remove : ℕ → Semaphore → Result Semaphore
remove id s = elim (find id s.acqs) [
  | some a ↦ (do
    assert a.attached
    assert (within (s.capacity - a.owned) s.pending)
    ok (record s {
      capacity = s.capacity - a.owned;
      acqs = replace (invalidate a) s.acqs;
      woken = s.woken ++ notices object_lost a.waiters;
    }))
  | none ↦ err undefined
]

-- `semaphore_acq_t::combine(std::move(other))` of two acquisitions that no longer wait. The other one
-- is detached, keeps its count, and stays linked in `m_acqs`.
unfoldable pub combine : ℕ → ℕ → Semaphore → Result Semaphore
combine id other s = elim (find id s.acqs) [
  | none ↦ err undefined
  | some a ↦ elim (find other s.acqs) [
    | none ↦ err undefined
    | some b ↦ (do
      assert a.attached
      assert b.attached
      let grown =
          replace (record a { owned = a.owned + b.owned; waiters = a.waiters ++ b.waiters }) s.acqs
      ok (record s { acqs = replace (record b { attached = false; waiters = [] }) grown }))
  ]
]

-- What `resize` does without waiting; `none` is the call that waits for the acquisition `id`.
unfoldable pub resize : ℕ → ℕ → Semaphore → Result (Option Semaphore)
resize id new_capacity s =
    if ltb s.capacity new_capacity
    then (do s' ← extend (new_capacity - s.capacity) s; ok (some s'))
    else if ltb new_capacity s.capacity
    then (if leb (s.capacity - new_capacity) s.available
        then (do
          s' ← remove id (start_acq id (s.capacity - new_capacity) s)
          s'' ← destroy id s'
          ok (some s''))
        else ok none)
    else ok (some s)

-- `semaphore_acq_t::add_wait`
unfoldable pub add_wait : ℕ → ℕ → Semaphore → Result Semaphore
add_wait id cb s = elim (find id s.acqs) [
  | some a ↦ (do assert a.attached; ok (record s { woken = s.woken ++ (cb, success) ∷ [] }))
  | none ↦ elim (find id s.pending) [
    | some a ↦ (do
      assert a.attached
      ok (record s { pending = replace (record a { waiters = a.waiters ++ cb ∷ [] }) s.pending }))
    | none ↦ err undefined
  ]
]
