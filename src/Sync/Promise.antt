-- ===== src/Sync/Promise.antt =====
-- src/sync/promise.hpp and promise.tcc: `promise_data_t<T>` for a T that can be moved, the `promise_t<T>`
-- that writes it and the futures that read it. A waiter and a chained callback are the address of their
-- object; what was called on them is in the log. The callbacks do not call the promise they are chained to.
pub mod Moved
pub mod Waiters
use indecorous.Base.{
  ℕ, Bool, true, false, not, Option, none, some, List, [], ◌∷◌, ◌++◌, map, Result, err, ok, require,
  Fault, guarantee, undefined, ◌>>=◌, ◌>>◌, ◌==◌, ◌||◌, ◌&&◌, if◌then◌else◌,
}
use indecorous.Sync.WaitObject.{WaitResult, success, object_lost}

-- `promise_data_t<T>::state_t`, with `m_value` while it is there
pub data State (A : Type 0) : Type 0 where
  unfulfilled released : State A
  fulfilled : A → State A

-- `future_t<T>`: the object and its `m_waiters`
pub record Future : Type 0 where
  pub id : ℕ
  pub waiters : List ℕ

-- Lists of futures and of waiters: every waiter gone, one future gone, none left, one changed; one waiter gone.
abbrev pub cleared : List Future → List Future
cleared [] = []
cleared (f ∷ fs) = record f { waiters = [] } ∷ cleared fs

abbrev pub without : ℕ → List Future → List Future
without id [] = []
without id (f ∷ fs) = if f.id == id then fs else f ∷ without id fs

abbrev pub no_futures : List Future → Bool
no_futures [] = true
no_futures (f ∷ fs) = false

abbrev pub update : ℕ → (Future → Future) → List Future → List Future
update id change [] = []
update id change (f ∷ fs) = if f.id == id then change f ∷ fs else f ∷ update id change fs

abbrev pub take_out : ℕ → List ℕ → List ℕ
take_out cb [] = []
take_out cb (x ∷ xs) = if x == cb then xs else x ∷ take_out cb xs

-- What was done: `wait_done` of a waiter, `handle` of a chained callback (by reference or by move), the
-- deletion of one, and a value given out by `release`.
pub data Deed (A : Type 0) : Type 0 where
  told : ℕ → WaitResult → Deed A
  ref_handled move_handled : ℕ → A → Deed A
  deleted : ℕ → Deed A
  taken : A → Deed A

pub record PromiseData (A : Type 0) : Type 0 where
  pub state : State A
  pub abandoned : Bool
  pub futures : List Future
  pub ref_chain : List ℕ
  pub move_chain : List ℕ
  pub log : List (Deed A)

module _ {A : Type 0} where
  -- `promise_data_t()`
  unfoldable pub create : PromiseData A
  create = record {
    state = unfulfilled;
    abandoned = false;
    futures = [];
    ref_chain = [];
    move_chain = [];
    log = [];
  }

  -- The tests of the state in `assign`, `has` and `released`
  abbrev pub is_unfulfilled : State A → Bool
  is_unfulfilled unfulfilled = true
  is_unfulfilled (fulfilled value) = false
  is_unfulfilled released = false

  abbrev pub has : State A → Bool
  has unfulfilled = false
  has (fulfilled value) = true
  has released = false

  abbrev pub is_released : State A → Bool
  is_released unfulfilled = false
  is_released (fulfilled value) = false
  is_released released = true

  -- `cref`
  abbrev pub cref_by : State A → Result A
  cref_by unfulfilled = err guarantee
  cref_by (fulfilled value) = ok value
  cref_by released = err guarantee

  unfoldable pub cref : PromiseData A → Result A
  cref p = cref_by p.state

  -- `future_t<T>::notify` of one future, and of each in turn
  abbrev pub tell_waiters : WaitResult → List ℕ → List (Deed A)
  tell_waiters result [] = []
  tell_waiters result (cb ∷ cbs) = told cb result ∷ tell_waiters result cbs

  abbrev pub tell_futures : WaitResult → List Future → List (Deed A)
  tell_futures result [] = []
  tell_futures result (f ∷ fs) = tell_waiters result f.waiters ++ tell_futures result fs

  unfoldable pub notify : WaitResult → PromiseData A → PromiseData A
  notify result p = record p {
    futures = cleared p.futures;
    log = p.log ++ tell_futures result p.futures;
  }

  -- `m_ref_chain.clear` in `notify_all`
  abbrev pub handle_refs : A → List ℕ → List (Deed A)
  handle_refs value [] = []
  handle_refs value (c ∷ cs) = ref_handled c value ∷ deleted c ∷ handle_refs value cs

  -- `m_move_chain.clear` in `notify_all`: the first callback takes the value.
  abbrev pub handle_moves : State A → List ℕ → List (Deed A)
  handle_moves s [] = []
  handle_moves (fulfilled value) (c ∷ cs) =
      move_handled c value ∷ deleted c ∷ handle_moves released cs
  handle_moves unfulfilled (c ∷ cs) = deleted c ∷ handle_moves unfulfilled cs
  handle_moves released (c ∷ cs) = deleted c ∷ handle_moves released cs

  abbrev pub after_moves : State A → List ℕ → State A
  after_moves s [] = s
  after_moves (fulfilled value) (c ∷ cs) = after_moves released cs
  after_moves unfulfilled (c ∷ cs) = after_moves unfulfilled cs
  after_moves released (c ∷ cs) = after_moves released cs

  -- `notify_all`, for a T that can be moved
  unfoldable pub handle_chains : A → PromiseData A → PromiseData A
  handle_chains value p = record p {
    state = after_moves (fulfilled value) p.move_chain;
    ref_chain = [];
    move_chain = [];
    log = p.log ++ handle_refs value p.ref_chain ++ handle_moves (fulfilled value) p.move_chain;
  }

  abbrev pub notify_by : State A → PromiseData A → PromiseData A
  notify_by (fulfilled value) p = notify success (handle_chains value p)
  notify_by released p = notify object_lost p
  notify_by unfulfilled p = if p.abandoned then notify object_lost p else p

  unfoldable pub notify_all : PromiseData A → PromiseData A
  notify_all p = notify_by p.state p

  -- `assign`
  unfoldable pub assign : A → PromiseData A → Result (PromiseData A)
  assign value p = do
    require guarantee (is_unfulfilled p.state)
    ok (notify_all (record p { state = fulfilled value }))

  -- `release`: `none` is the exception `wait_object_lost_exc_t`. The value of a promise that has none is
  -- memory that was never written.
  abbrev pub release_by : State A → PromiseData A → Result (Option (A × PromiseData A))
  release_by (fulfilled value) p =
      ok (some (value, record p { state = released; log = p.log ++ taken value ∷ [] }))
  release_by released p = ok none
  release_by unfulfilled p = err undefined

  unfoldable pub release : PromiseData A → Result (Option (A × PromiseData A))
  release p = release_by p.state p

  -- `add_future`
  unfoldable pub add_future : ℕ → PromiseData A → PromiseData A
  add_future id p = record p { futures = p.futures ++ record { id = id; waiters = [] } ∷ [] }

  -- `remove_future`: with whether the data can be deleted.
  unfoldable pub remove_future : ℕ → PromiseData A → PromiseData A × Bool
  remove_future id p =
      let rest = without id p.futures in
      (record p { futures = rest }, p.abandoned && no_futures rest)

  -- `abandon`: with whether the data can be deleted.
  unfoldable pub abandon : PromiseData A → Result (PromiseData A × Bool)
  abandon p = do
    require guarantee (not p.abandoned)
    let t = notify_all (record p { abandoned = true }) in ok (t, no_futures t.futures)

  -- `~promise_data_t`: the callbacks that are still chained are deleted.
  abbrev pub delete_all : List ℕ → List (Deed A)
  delete_all [] = []
  delete_all (c ∷ cs) = deleted c ∷ delete_all cs

  unfoldable pub destroy : PromiseData A → PromiseData A
  destroy p = record p {
    ref_chain = [];
    move_chain = [];
    log = p.log ++ delete_all p.ref_chain ++ delete_all p.move_chain;
  }

  -- `reassign_futures`: the callbacks and the futures of the first go to the second.
  unfoldable pub reassign_futures : PromiseData A → PromiseData A → PromiseData A × PromiseData A
  reassign_futures p other = (
    record p { ref_chain = []; move_chain = []; futures = [] },
    notify_all (record other {
      ref_chain = other.ref_chain ++ p.ref_chain;
      move_chain = other.move_chain ++ p.move_chain;
      futures = other.futures ++ p.futures;
    }),
  )

  -- `future_t<T>::add_wait`, of a future that has its data
  unfoldable pub add_wait : ℕ → ℕ → PromiseData A → PromiseData A
  add_wait id cb p =
      if has p.state
      then record p { log = p.log ++ told cb success ∷ [] }
      else if p.abandoned || is_released p.state
      then record p { log = p.log ++ told cb object_lost ∷ [] }
      else record p {
        futures = update id (λ f. record f { waiters = f.waiters ++ cb ∷ [] }) p.futures;
      }

  -- `future_t<T>::remove_wait`
  unfoldable pub remove_wait : ℕ → ℕ → PromiseData A → PromiseData A
  remove_wait id cb p = record p {
    futures = update id (λ f. record f { waiters = take_out cb f.waiters }) p.futures;
  }

-- What `then` and `then_release` do: the callback is called with the value at once, or the future that is
-- given back is abandoned, or the callback is chained.
pub data Then (A : Type 0) : Type 0 where
  at_once : A → PromiseData A → Then A
  lost : Then A
  chained : PromiseData A → Then A

module _ {A : Type 0} where
  abbrev pub then_by : State A → ℕ → PromiseData A → Then A
  then_by (fulfilled value) c p = at_once value p
  then_by released c p = lost
  then_by unfulfilled c p =
      if p.abandoned then lost else chained (record p { ref_chain = p.ref_chain ++ c ∷ [] })

  -- `future_t<T>::then`, with `add_ref_chain`
  unfoldable pub then_ref : ℕ → PromiseData A → Then A
  then_ref c p = then_by p.state c p

  abbrev pub then_release_by : State A → ℕ → PromiseData A → Then A
  then_release_by (fulfilled value) c p =
      at_once value (record p { state = released; log = p.log ++ taken value ∷ [] })
  then_release_by released c p = lost
  then_release_by unfulfilled c p =
      if p.abandoned then lost else chained (record p { move_chain = p.move_chain ++ c ∷ [] })

  -- `future_t<T>::then_release`, with `add_move_chain`
  unfoldable pub then_release : ℕ → PromiseData A → Then A
  then_release c p = then_release_by p.state c p
