-- ===== src/Sync/Interruptor.antt =====
-- src/sync/interruptor.hpp and interruptor.cc: the interruptors of a coroutine, the outermost first. Each
-- waits for its own object and, by its `m_prev_waiter`, for the one around it. A callback is a number.
pub mod Nested
pub mod History
pub mod Tells
use indecorous.Base.{
  Result, ok, err, assertion, ℕ, zero, suc, ◌≡◌, Bool, true, false, Option, none, some, List, [],
  ◌∷◌, ◌++◌, ◌==◌, if◌then◌else◌,
}
use indecorous.Sync.WaitObject.{WaitResult, success, interrupted, object_lost, Notice}

-- An entry of `m_waiters`: a callback, or the `m_prev_waiter` of the next inner interruptor
pub data Waiter : Type 0 where
  callback : ℕ → Waiter
  inner : Waiter

-- `interruptor_t`
pub record Interruptor : Type 0 where
  pub triggered : Bool
  pub waiters : List Waiter

abbrev pub Chain : Type 0
Chain = List Interruptor

abbrev pub Told : Type 0
Told = List Notice × Chain

-- `m_waiters.clear`, in `handle_triggered`: `handled` is what `handle_triggered` of the next inner interruptor
-- does.
abbrev pub tell : Told → Chain → List Waiter → Told
tell handled rest [] = ([], rest)
tell handled rest (callback cb ∷ waiters) =
    let others = tell handled rest waiters in ((cb, interrupted) ∷ others.0, others.1)
tell handled rest (inner ∷ waiters) =
    let others = tell handled handled.1 waiters in (handled.0 ++ others.0, others.1)

-- `handle_triggered`, of the first interruptor of the chain
unfoldable pub handle_triggered : Chain → Told
handle_triggered [] = ([], [])
handle_triggered (i ∷ rest) =
    let others = tell (handle_triggered rest) rest i.waiters in
    (others.0, record { triggered = true; waiters = [] } ∷ others.1)

-- `handle_triggered`, of the interruptor at that depth
unfoldable pub handle_at : ℕ → Chain → Told
unfolding handle_triggered
handle_at k [] = ([], [])
handle_at zero (i ∷ rest) = handle_triggered (i ∷ rest)
handle_at (suc k) (i ∷ rest) = let others = handle_at k rest in (others.0, i ∷ others.1)

-- `wait_done`, of the interruptor at that depth: the result of its object is asserted to be the success.
unfoldable pub wait_done : WaitResult → ℕ → Chain → Result Told
unfolding handle_at
wait_done success k chain = ok (handle_at k chain)
wait_done interrupted k chain = err assertion
wait_done object_lost k chain = err assertion

-- `interruptor_t(waitable)`, with whether the object has completed already. The interruptor that is the last
-- so far is told of the new one, or triggers it.
abbrev pub fresh : Bool → Interruptor
fresh triggered = record { triggered = triggered; waiters = [] }

unfoldable pub create : Bool → Chain → Chain
create done [] = fresh done ∷ []
create done (i ∷ []) =
    if i.triggered
    then i ∷ fresh true ∷ []
    else record i { waiters = i.waiters ++ inner ∷ [] } ∷ fresh done ∷ []
create done (i ∷ j ∷ rest) = i ∷ create done (j ∷ rest)

abbrev pub remove_inner : List Waiter → List Waiter
remove_inner [] = []
remove_inner (callback cb ∷ waiters) = callback cb ∷ remove_inner waiters
remove_inner (inner ∷ waiters) = waiters

abbrev pub lost : List Waiter → List Notice
lost [] = []
lost (callback cb ∷ waiters) = (cb, object_lost) ∷ lost waiters
lost (inner ∷ waiters) = lost waiters

-- `~interruptor_t()` of the last interruptor: it is unlinked from the one around it, and its waiters are told.
-- No inner one waits on the last.
unfoldable pub destroy : Chain → Told
destroy [] = ([], [])
destroy (i ∷ []) = (lost i.waiters, [])
destroy (i ∷ j ∷ []) = (lost j.waiters, record i { waiters = remove_inner i.waiters } ∷ [])
destroy (i ∷ j ∷ k ∷ rest) = let others = destroy (j ∷ k ∷ rest) in (others.0, i ∷ others.1)

-- `add_wait` and `remove_wait`, of the interruptor at that depth
unfoldable pub add_wait : ℕ → ℕ → Chain → Told
add_wait cb k [] = ([], [])
add_wait cb zero (i ∷ rest) =
    if i.triggered
    then ((cb, interrupted) ∷ [], i ∷ rest)
    else ([], record i { waiters = i.waiters ++ callback cb ∷ [] } ∷ rest)
add_wait cb (suc k) (i ∷ rest) = let others = add_wait cb k rest in (others.0, i ∷ others.1)

abbrev pub without : ℕ → List Waiter → List Waiter
without cb [] = []
without cb (callback c ∷ waiters) = if c == cb then waiters else callback c ∷ without cb waiters
without cb (inner ∷ waiters) = inner ∷ without cb waiters

unfoldable pub remove_wait : ℕ → ℕ → Chain → Chain
remove_wait cb k [] = []
remove_wait cb zero (i ∷ rest) = record i { waiters = without cb i.waiters } ∷ rest
remove_wait cb (suc k) (i ∷ rest) = i ∷ remove_wait cb k rest
