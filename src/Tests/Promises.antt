-- ===== src/Tests/Promises.antt =====
-- Promises, of src/sync/promise.tcc and promise.cc, at concrete inputs.
use indecorous.Base.{ℕ, ◌≡◌, refl, false, [], ◌∷◌, ok, err, guarantee, Among, first}
use indecorous.Sync.WaitObject.{success}
use indecorous.Sync.Promise.{
  PromiseData, released, unfulfilled, told, ref_handled, move_handled, deleted, create, assign,
  add_future, add_wait, then_ref, then_release, cref, notify_all, notify, handle_chains,
}
use indecorous.Sync.Promise.Moved.{
  Reach, start, next, assigns, adds, waits, thens, then_takes, Owns, Reach-Owns,
}
use indecorous.Sync.Promise.Waiters.{IsAnswered, Reach-IsAnswered, assign-tells_taken}
use indecorous.Sync.PromiseVoid

-- A promise with the future 1, on which 10 waits, and the callbacks 20 by reference and 30 by move.
abbrev waiting_promise : PromiseData ℕ
waiting_promise = record {
  state = unfulfilled;
  abandoned = false;
  futures = record { id = 1; waiters = 10 ∷ [] } ∷ [];
  ref_chain = 20 ∷ [];
  move_chain = 30 ∷ [];
  log = [];
}

abbrev taken_promise : PromiseData ℕ
taken_promise = record {
  state = released;
  abandoned = false;
  futures = record { id = 1; waiters = [] } ∷ [];
  ref_chain = [];
  move_chain = [];
  log = ref_handled 20 5 ∷ deleted 20 ∷ move_handled 30 5 ∷ deleted 30 ∷ told 10 success ∷ [];
}

waiting_reached : Reach waiting_promise
unfolding create add_future add_wait then_ref then_release
waiting_reached =
    next (next (next (next start (adds 1 refl)) (waits 1 10 refl)) (thens 20 refl))
      (then_takes 30 refl)

assigned : assign 5 waiting_promise ≡ ok taken_promise
unfolding assign notify_all notify handle_chains
assigned = refl

Reach-Owns_example : Owns taken_promise
Reach-Owns_example = Reach-Owns taken_promise (next waiting_reached (assigns 5 assigned))

Reach-IsAnswered_example : IsAnswered taken_promise
Reach-IsAnswered_example =
    Reach-IsAnswered taken_promise (next waiting_reached (assigns 5 assigned))

assign-tells_taken_example :
    (t : PromiseData ℕ) × ((assign 5 waiting_promise ≡ ok t)
      × (Among (told 10 success) t.log × (cref t ≡ err guarantee)))
assign-tells_taken_example = assign-tells_taken 5 waiting_promise 30 10 [] refl refl first

-- A promise of nothing with the callbacks 20 and 21, that is dropped.
abbrev dropped : PromiseVoid.PromiseData
dropped = record {
  fulfilled = false;
  abandoned = false;
  futures = record { id = 1; waiters = 10 ∷ [] } ∷ [];
  chain = 20 ∷ 21 ∷ [];
  log = [];
}
