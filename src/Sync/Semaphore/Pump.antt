-- ===== src/Sync/Semaphore/Pump.antt =====
-- src/sync/semaphore.cc, `pump_waiters`: whom it serves.
use indecorous.Base.{
  ℕ, ◌+◌, ◌-◌, ◌≤◌, ◌<◌, ◌≡◌, refl, ap, ◌∙◌, inl, inr, true, List, [], ◌∷◌, ◌++◌, map, append-nil,
  append_assoc, All, ok, leb, leb→le, lt→ltb, Bool-cases, arith,
}
use indecorous.Sync.WaitObject.{success, Notice, notices}
use indecorous.Sync.Semaphore.{Semaphore, ready, pump_loop, pump_waiters}
use indecorous.Sync.Semaphore.Lookup.{Acq}

-- An acquisition that waits: it wants something, owns nothing yet, and its semaphore is there.
pub record IsWaiting (a : Acq) : Type 0 where
  pub wants : 0 < a.pending
  pub owns : a.owned ≡ 0
  pub attached : a.attached ≡ true

-- The acquisition once it has what it waited for.
abbrev pub granted : Acq → Acq
granted a = record a { owned = a.owned + a.pending; pending = 0; waiters = [] }

abbrev pub total_pending : List Acq → ℕ
total_pending [] = 0
total_pending (a ∷ xs) = a.pending + total_pending xs

abbrev pub told : List Acq → List Notice
told [] = []
told (a ∷ xs) = notices success a.waiters ++ told xs

-- The first in the queue, if there is one, wants more than there is.
abbrev pub IsBlocked : ℕ → List Acq → Type 0
IsBlocked available [] = Unit {0}
IsBlocked available (a ∷ xs) = available < a.pending

-- What serving a queue `queue` from the front makes of `s`: those `served` are its beginning, in order;
-- each gets all it wants, out of what is available; its callbacks are told of the success; and the
-- queue is left where the next one wants more than there is.
pub record Serves (queue : List Acq) (s t : Semaphore) : Type 0 where
  pub served : List Acq
  pub in_order : queue ≡ served ++ t.pending
  pub paid : t.available + total_pending served ≡ s.available
  pub moved : t.acqs ≡ s.acqs ++ map granted served
  pub log : t.woken ≡ s.woken ++ told served
  pub blocked : IsBlocked t.available t.pending
  pub same_capacity : t.capacity ≡ s.capacity

pub ready-granted : (a : Acq) → IsWaiting a → ready a ≡ ok (granted a, notices success a.waiters)
unfolding ready
ready-granted a w = rw (w.attached, lt→ltb 0 a.pending w.wants)

-- The semaphore with one more acquisition served.
abbrev serve_one : Acq → Semaphore → Semaphore
serve_one a s = record s {
  available = s.available - a.pending;
  acqs = s.acqs ++ granted a ∷ [];
  woken = s.woken ++ notices success a.waiters;
}

Serves-cons :
    (a : Acq) (rest : List Acq) (s t : Semaphore)
    → a.pending ≤ s.available
    → Serves rest (serve_one a s) t
    → Serves (a ∷ rest) s t
Serves-cons a rest s t h v = record {
  served = a ∷ v.served;
  in_order = ap (◌∷◌ a) v.in_order;
  paid = omega (arith, v.paid);
  moved = v.moved ∙ append_assoc s.acqs (granted a ∷ []) (map granted v.served);
  log = v.log ∙ append_assoc s.woken (notices success a.waiters) (told v.served);
  blocked = v.blocked;
  same_capacity = v.same_capacity;
}

pub pump_loop-Serves :
    (queue : List Acq) (s : Semaphore)
    → All IsWaiting queue
    → (t : Semaphore) × (pump_loop queue s ≡ ok t) × Serves queue s t
unfolding pump_loop
pump_loop-Serves [] s w = (
  record s { pending = [] },
  refl,
  record {
    served = [];
    in_order = refl;
    paid = omega arith;
    moved = rw append-nil;
    log = rw append-nil;
    blocked = tt;
    same_capacity = refl;
  },
)
pump_loop-Serves (a ∷ rest) s w = elim (Bool-cases (leb a.pending s.available)) [
  | inl enough ↦
      let (t, e, v) = pump_loop-Serves rest (serve_one a s) w.1 in
      (
        t,
        rw (enough, ready-granted a w.0) e,
        Serves-cons a rest s t (leb→le a.pending s.available enough) v,
      )
  | inr short ↦ (
    record s { pending = a ∷ rest },
    rw short,
    record {
      served = [];
      in_order = refl;
      paid = omega arith;
      moved = rw append-nil;
      log = rw append-nil;
      blocked = ground arith;
      same_capacity = refl;
    },
  )
]

-- `pump_waiters` never fails on a queue of waiting acquisitions. It serves the queue from the front,
-- first come first served, until the first that is left wants more than what is available.
pub pump_waiters-Serves :
    (s : Semaphore)
    → All IsWaiting s.pending
    → (t : Semaphore) × (pump_waiters s ≡ ok t) × Serves s.pending s t
unfolding pump_waiters
pump_waiters-Serves s w = pump_loop-Serves s.pending s w
