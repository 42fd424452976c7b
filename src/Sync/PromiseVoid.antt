-- ===== src/Sync/PromiseVoid.antt =====
-- src/sync/promise.cc: `promise_data_t<void>`, the promise that writes it and the futures that read it.
-- The callbacks do not call the promise they are chained to.
use indecorous.Base.{
  ℕ, ◌≡◌, refl, Bool, true, false, not, List, [], ◌∷◌, ◌++◌, Result, ok, require, guarantee, ◌>>◌,
  ◌&&◌, if◌then◌else◌, append-nil,
}
use indecorous.Sync.WaitObject.{WaitResult, success, object_lost}
use indecorous.Sync.Promise.{Future, cleared, without, no_futures, update, take_out}

-- What was done: `wait_done` of a waiter, and `handle` and the deletion of a chained callback.
pub data Deed : Type 0 where
  told : ℕ → WaitResult → Deed
  handled : ℕ → Deed
  deleted : ℕ → Deed

pub record PromiseData : Type 0 where
  pub fulfilled : Bool
  pub abandoned : Bool
  pub futures : List Future
  pub chain : List ℕ
  pub log : List Deed

-- `promise_data_t()`
unfoldable pub create : PromiseData
create = record { fulfilled = false; abandoned = false; futures = []; chain = []; log = [] }

-- `future_t<void>::notify` of the waiters of one future, and of each future in turn
abbrev pub tell_waiters : WaitResult → List ℕ → List Deed
tell_waiters result [] = []
tell_waiters result (cb ∷ cbs) = told cb result ∷ tell_waiters result cbs

abbrev pub tell_futures : WaitResult → List Future → List Deed
tell_futures result [] = []
tell_futures result (f ∷ fs) = tell_waiters result f.waiters ++ tell_futures result fs

abbrev pub handle_all : List ℕ → List Deed
handle_all [] = []
handle_all (c ∷ cs) = handled c ∷ deleted c ∷ handle_all cs

-- One branch of `notify_all`
abbrev pub notify : WaitResult → PromiseData → PromiseData
notify result p = record p {
  chain = [];
  futures = cleared p.futures;
  log = (p.log ++ handle_all p.chain) ++ tell_futures result p.futures;
}

-- `notify_all`
unfoldable pub notify_all : PromiseData → PromiseData
notify_all p =
    if p.fulfilled then notify success p else if p.abandoned then notify object_lost p else p

-- `assign`
unfoldable pub assign : PromiseData → Result PromiseData
assign p = do require guarantee (not p.fulfilled); ok (notify_all (record p { fulfilled = true }))

-- `add_future`
unfoldable pub add_future : ℕ → PromiseData → PromiseData
add_future id p = record p { futures = p.futures ++ record { id = id; waiters = [] } ∷ [] }

-- `reassign_futures`
unfoldable pub reassign_futures : PromiseData → PromiseData → PromiseData × PromiseData
reassign_futures p other = (
  record p { chain = []; futures = [] },
  notify_all
      (record other { chain = other.chain ++ p.chain; futures = other.futures ++ p.futures }),
)

-- `remove_future`: with whether the data can be deleted.
unfoldable pub remove_future : ℕ → PromiseData → PromiseData × Bool
remove_future id p =
    let rest = without id p.futures in (record p { futures = rest }, p.abandoned && no_futures rest)

-- `abandon`: with whether the data can be deleted.
unfoldable pub abandon : PromiseData → Result (PromiseData × Bool)
abandon p = do
  require guarantee (not p.abandoned)
  let t = notify_all (record p { abandoned = true }) in ok (t, no_futures t.futures)

-- `future_t<void>::add_wait`, of a future that has its data
unfoldable pub add_wait : ℕ → ℕ → PromiseData → PromiseData
add_wait id cb p =
    if p.fulfilled
    then record p { log = p.log ++ told cb success ∷ [] }
    else if p.abandoned
    then record p { log = p.log ++ told cb object_lost ∷ [] }
    else record p {
      futures = update id (λ f. record f { waiters = f.waiters ++ cb ∷ [] }) p.futures;
    }

-- `future_t<void>::remove_wait`
unfoldable pub remove_wait : ℕ → ℕ → PromiseData → PromiseData
remove_wait id cb p = record p {
  futures = update id (λ f. record f { waiters = take_out cb f.waiters }) p.futures;
}

-- What `then` does: the callback is called at once, or the future that is given back is abandoned, or the
-- callback is chained.
pub data Then : Type 0 where
  at_once lost : Then
  chained : PromiseData → Then

-- `future_t<void>::then`, with `add_chain`
unfoldable pub then_ : ℕ → PromiseData → Then
then_ c p =
    if p.fulfilled
    then at_once
    else if p.abandoned
    then lost
    else chained (record p { chain = p.chain ++ c ∷ [] })

-- The callbacks that were called.
abbrev pub called : List Deed → List ℕ
called [] = []
called (handled c ∷ ds) = c ∷ called ds
called (told cb result ∷ ds) = called ds
called (deleted c ∷ ds) = called ds

called-append : (xs ys : List Deed) → called (xs ++ ys) ≡ called xs ++ called ys
called-append [] ys = refl
called-append (handled c ∷ xs) ys = rw (called-append xs ys) refl
called-append (told cb result ∷ xs) ys = called-append xs ys
called-append (deleted c ∷ xs) ys = called-append xs ys

called-handle_all : (cs : List ℕ) → called (handle_all cs) ≡ cs
called-handle_all [] = refl
called-handle_all (c ∷ cs) = rw (called-handle_all cs) refl

called-tell_waiters : (r : WaitResult) (cbs : List ℕ) → called (tell_waiters r cbs) ≡ []
called-tell_waiters r [] = refl
called-tell_waiters r (cb ∷ cbs) = called-tell_waiters r cbs

called-tell_futures : (r : WaitResult) (fs : List Future) → called (tell_futures r fs) ≡ []
called-tell_futures r [] = refl
called-tell_futures r (f ∷ fs) =
    rw
      (
        called-append (tell_waiters r f.waiters) (tell_futures r fs),
        called-tell_waiters r f.waiters,
      )
      (called-tell_futures r fs)

-- A promise that is dropped without being fulfilled: the callbacks that `then` chained to it are called
-- all the same, in their order, while a `then` that comes after it gives an abandoned future.
pub abandon-called :
    (p : PromiseData) (c : ℕ)
    → p.fulfilled ≡ false
    → p.abandoned ≡ false
    → (t : PromiseData) × ((abandon p ≡ ok (t, no_futures (cleared p.futures)))
        × ((called t.log ≡ called p.log ++ p.chain) × (then_ c t ≡ lost)))
unfolding abandon notify_all then_
abandon-called p c f a = (
  notify object_lost (record p { abandoned = true }),
  (
    rw (f, a) refl,
    (
      rw
          (
            called-append (p.log ++ handle_all p.chain) (tell_futures object_lost p.futures),
            called-append p.log (handle_all p.chain),
            called-handle_all p.chain,
            called-tell_futures object_lost p.futures,
          )
          (append-nil (called p.log ++ p.chain)),
      rw f refl,
    ),
  ),
)
