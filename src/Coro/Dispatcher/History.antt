-- ===== src/Coro/Dispatcher/History.antt =====
-- src/coro/coro.cc: the life of a dispatcher, from the first `run` on.
use indecorous.Base.{
  ℕ, ◌+◌, ◌-◌, ◌%◌, ◌≡◌, refl, ap, ◌∙◌, sym, none, some, List, [], ◌∷◌, ◌++◌, length, Result, ok,
  ok-injective, subst, arith,
}
use indecorous.Sync.WaitObject.{WaitResult}
use indecorous.Coro.Dispatcher.{
  Dispatcher, word, create, run, wait, yield_, finish, notify, note_new_task, note_accepted_task,
  spawn, SpawnType, destroy,
}
use indecorous.Coro.Dispatcher.Places.{Holds, listed}
use indecorous.Coro.Dispatcher.Calls.{
  Rpcs, IsPlaced, wait-IsPlaced, yield_-IsPlaced, finish-IsPlaced, run-IsPlaced, notify-IsPlaced,
  pending,
}
use indecorous.Coro.Dispatcher.Spawns.{spawn-IsPlaced}

abbrev pub no_rpcs : Rpcs
no_rpcs = record { sent = 0; accepted = 0 }

-- The calls that the running coroutine and, where none runs, the main context make; and the coroutines that
-- wait, and the rpcs, by the account of the callers. A coroutine that waits may be notified at any time.
pub data Reach (max_cache_size : ℕ) : List ℕ → Rpcs → Dispatcher → Type 0 where
  runs_first :
      {t : Dispatcher} → run (create max_cache_size) ≡ ok t → Reach max_cache_size [] no_rpcs t
  runs :
      {waiting : List ℕ} {rpcs : Rpcs} {d t : Dispatcher}
      → Reach max_cache_size waiting rpcs d
      → d.running ≡ none
      → run d ≡ ok t
      → Reach max_cache_size waiting rpcs t
  waits :
      (self : ℕ) {waiting : List ℕ} {rpcs : Rpcs} {d t : Dispatcher}
      → Reach max_cache_size waiting rpcs d
      → d.running ≡ some self
      → wait self d ≡ ok t
      → Reach max_cache_size (self ∷ waiting) rpcs t
  yields :
      (self : ℕ) {waiting : List ℕ} {rpcs : Rpcs} {d t : Dispatcher}
      → Reach max_cache_size waiting rpcs d
      → d.running ≡ some self
      → yield_ self d ≡ ok t
      → Reach max_cache_size waiting rpcs t
  finishes :
      (self : ℕ) {waiting : List ℕ} {rpcs : Rpcs} {d t : Dispatcher}
      → Reach max_cache_size waiting rpcs d
      → d.running ≡ some self
      → finish self d ≡ ok t
      → Reach max_cache_size waiting rpcs t
  spawns :
      (type : SpawnType) (self : ℕ) {waiting : List ℕ} {rpcs : Rpcs} {d t : Dispatcher}
      → Reach max_cache_size waiting rpcs d
      → d.running ≡ some self
      → spawn type self d ≡ ok t
      → Reach max_cache_size waiting rpcs t
  notifies :
      (c : ℕ) (before after : List ℕ) (result : WaitResult) {rpcs : Rpcs} {d t : Dispatcher}
      → Reach max_cache_size (before ++ c ∷ after) rpcs d
      → notify c result d ≡ ok t
      → Reach max_cache_size (before ++ after) rpcs t
  sends :
      (self : ℕ) {waiting : List ℕ} {rpcs : Rpcs} {d : Dispatcher}
      → Reach max_cache_size waiting rpcs d
      → d.running ≡ some self
      → Reach max_cache_size waiting (record rpcs { sent = 1 + rpcs.sent }) (note_new_task d)
  accepts :
      (self : ℕ) {waiting : List ℕ} {rpcs : Rpcs} {d : Dispatcher}
      → Reach max_cache_size waiting rpcs d
      → d.running ≡ some self
      → Reach max_cache_size waiting
          (record rpcs { accepted = 1 + rpcs.accepted })
          (note_accepted_task d)

reached :
    (waiting : List ℕ) (rpcs : Rpcs) {m : Result Dispatcher} (u t : Dispatcher)
    → m ≡ ok u
    → m ≡ ok t
    → IsPlaced waiting rpcs u
    → IsPlaced waiting rpcs t
reached waiting rpcs u t eq e v = subst (λ s. IsPlaced waiting rpcs s) (ok-injective (sym eq ∙ e)) v

retasks-Holds :
    (waiting others : List ℕ) (delta : ℕ) (d : Dispatcher)
    → Holds waiting others d
    → Holds waiting others (record d { coro_delta = delta })
retasks-Holds waiting others delta d v = record {
  permitted = v.permitted;
  once = v.once;
  fresh = v.fresh;
  counted = v.counted;
  ready = v.ready;
  small = v.small;
  order = v.order;
}

-- The dispatcher when the initial coroutine starts
abbrev begun : ℕ → Dispatcher
begun max_cache_size = record (create max_cache_size) {
  run_queue = [];
  running = some 0;
  popped = 0 ∷ [];
}

begun-eq : (max_cache_size : ℕ) → run (create max_cache_size) ≡ ok (begun max_cache_size)
unfolding create run
begun-eq max_cache_size = refl

begun-IsPlaced : (max_cache_size : ℕ) → IsPlaced [] no_rpcs (begun max_cache_size)
unfolding create
begun-IsPlaced max_cache_size = record {
  holds = record {
    permitted = refl;
    once = λ x. ground arith;
    fresh = λ x h. ground (arith, h);
    counted = omega arith;
    ready = λ x h. absurd (omega (arith, h));
    small = omega arith;
    order = refl;
  };
  free = refl;
  balanced = refl;
}

module _ (waiting : List ℕ) (rpcs : Rpcs) (d : Dispatcher) (v : IsPlaced waiting rpcs d) (self : ℕ)
    (e : d.running ≡ some self) where
  sent-IsPlaced : IsPlaced waiting (record rpcs { sent = 1 + rpcs.sent }) (note_new_task d)
  unfolding note_new_task
  sent-IsPlaced = record {
    holds = retasks-Holds waiting (listed d.running) ((d.coro_delta + 1) % word) d v.holds;
    free = v.free;
    balanced = omega (
      arith,
      v.balanced,
      ap (λ o. pending o d.coro_delta) e,
      ap (λ o. pending o ((d.coro_delta + 1) % word)) e,
    );
  }

  accepted-IsPlaced :
      IsPlaced waiting (record rpcs { accepted = 1 + rpcs.accepted }) (note_accepted_task d)
  unfolding note_accepted_task
  accepted-IsPlaced = record {
    holds = retasks-Holds waiting (listed d.running) ((d.coro_delta + (word - 1)) % word) d v.holds;
    free = v.free;
    balanced = omega (
      arith,
      v.balanced,
      ap (λ o. pending o d.coro_delta) e,
      ap (λ o. pending o ((d.coro_delta + (word - 1)) % word)) e,
    );
  }

-- In every state of a dispatcher, from its first `run` on: a coroutine is in one place at most, the running
-- one, the queue, among those that wait, or the cache; the cache is not larger than it may be; the
-- coroutines in use are those that run, are queued or wait; every one of the queued and waiting has a point
-- to go on; the queue holds the coroutines that went into it and have not come out, in their order; and what
-- `update` has been told, with the change of this run while a coroutine runs, is the change in the
-- coroutines in use and in the rpcs, modulo the size of the counter.
pub Reach-IsPlaced :
    (max_cache_size : ℕ) {waiting : List ℕ} {rpcs : Rpcs} {d : Dispatcher}
    → Reach max_cache_size waiting rpcs d
    → IsPlaced waiting rpcs d
Reach-IsPlaced m (runs_first {t} e) =
    reached [] no_rpcs (begun m) t (begun-eq m) e (begun-IsPlaced m)
Reach-IsPlaced m (runs {waiting} {rpcs} {d} {t} r idle e) =
    let (u, (eq, v)) = run-IsPlaced waiting rpcs d (Reach-IsPlaced m r) idle in
    reached waiting rpcs u t eq e v
Reach-IsPlaced m (waits self {waiting} {rpcs} {d} {t} r here e) =
    let (u, (eq, (v, slice))) = wait-IsPlaced waiting rpcs d (Reach-IsPlaced m r) self here in
    reached (self ∷ waiting) rpcs u t eq e v
Reach-IsPlaced m (yields self {waiting} {rpcs} {d} {t} r here e) =
    let (u, (eq, (v, slice))) = yield_-IsPlaced waiting rpcs d (Reach-IsPlaced m r) self here in
    reached waiting rpcs u t eq e v
Reach-IsPlaced m (finishes self {waiting} {rpcs} {d} {t} r here e) =
    let (u, (eq, (v, slice))) = finish-IsPlaced waiting rpcs d (Reach-IsPlaced m r) self here in
    reached waiting rpcs u t eq e v
Reach-IsPlaced m (spawns type self {waiting} {rpcs} {d} {t} r here e) =
    let (u, (eq, v)) = spawn-IsPlaced waiting rpcs d (Reach-IsPlaced m r) self here type in
    reached waiting rpcs u t eq e v
Reach-IsPlaced m (notifies c before after result {rpcs} {d} {t} r e) =
    let (u, (eq, v)) =
      notify-IsPlaced (before ++ c ∷ after) rpcs d (Reach-IsPlaced m r) c before after result
        refl in
    reached (before ++ after) rpcs u t eq e v
Reach-IsPlaced m (sends self {waiting} {rpcs} {d} r here) =
    sent-IsPlaced waiting rpcs d (Reach-IsPlaced m r) self here
Reach-IsPlaced m (accepts self {waiting} {rpcs} {d} r here) =
    accepted-IsPlaced waiting rpcs d (Reach-IsPlaced m r) self here

-- The calls that may be made: those of the running coroutine, `run` of the main context where none runs,
-- and `notify` of a coroutine that waits
pub data Call (waiting : List ℕ) (d : Dispatcher) : Result Dispatcher → Type 0 where
  call_run : d.running ≡ none → Call waiting d (run d)
  call_wait : (self : ℕ) → d.running ≡ some self → Call waiting d (wait self d)
  call_yield : (self : ℕ) → d.running ≡ some self → Call waiting d (yield_ self d)
  call_finish : (self : ℕ) → d.running ≡ some self → Call waiting d (finish self d)
  call_spawn :
      (type : SpawnType) (self : ℕ) → d.running ≡ some self → Call waiting d (spawn type self d)
  call_notify :
      (c : ℕ) (before after : List ℕ) (result : WaitResult)
      → waiting ≡ before ++ c ∷ after
      → Call waiting d (notify c result d)

-- In every state from the first `run` on, every call that may be made ends well: no assertion fails, no
-- coroutine is released or queued that is in a list, and none is switched to that has nowhere to go on.
pub Reach-Call :
    (max_cache_size : ℕ) {waiting : List ℕ} {rpcs : Rpcs} {d : Dispatcher} {m : Result Dispatcher}
    → Reach max_cache_size waiting rpcs d
    → Call waiting d m
    → (t : Dispatcher) × (m ≡ ok t)
Reach-Call n {waiting} {rpcs} {d} r (call_run idle) =
    let (t, (eq, v)) = run-IsPlaced waiting rpcs d (Reach-IsPlaced n r) idle in (t, eq)
Reach-Call n {waiting} {rpcs} {d} r (call_wait self here) =
    let (t, (eq, v)) = wait-IsPlaced waiting rpcs d (Reach-IsPlaced n r) self here in (t, eq)
Reach-Call n {waiting} {rpcs} {d} r (call_yield self here) =
    let (t, (eq, v)) = yield_-IsPlaced waiting rpcs d (Reach-IsPlaced n r) self here in (t, eq)
Reach-Call n {waiting} {rpcs} {d} r (call_finish self here) =
    let (t, (eq, v)) = finish-IsPlaced waiting rpcs d (Reach-IsPlaced n r) self here in (t, eq)
Reach-Call n {waiting} {rpcs} {d} r (call_spawn type self here) =
    let (t, (eq, v)) = spawn-IsPlaced waiting rpcs d (Reach-IsPlaced n r) self here type in (t, eq)
Reach-Call n {waiting} {rpcs} {d} r (call_notify c before after result e) =
    let (t, (eq, v)) =
      notify-IsPlaced waiting rpcs d (Reach-IsPlaced n r) c before after result e in
    (t, eq)

-- A dispatcher none of whose coroutines runs, is queued or waits can be destroyed: none is left in use.
Reach-destroy :
    (max_cache_size : ℕ) {rpcs : Rpcs} {d : Dispatcher}
    → Reach max_cache_size [] rpcs d
    → d.running ≡ none
    → d.run_queue ≡ []
    → destroy d ≡ ok tt
unfolding destroy
Reach-destroy n {rpcs} {d} r idle empty =
    let v = Reach-IsPlaced n r in
    let unused : d.extant ≡ 0 =
      omega (arith, v.holds.counted, ap length empty, ap (λ o. length (listed o)) idle) in
    rw (idle, empty, unused) refl
