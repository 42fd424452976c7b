-- ===== src/Sync/MultipleWait/Completion.antt =====
-- src/sync/multiple_wait.cc: when a waiter is woken, and what comes after.
use indecorous.Base.{
  ℕ, zero, suc, ◌-◌, ◌≡◌, true, false, Option, some, List, [], ◌∷◌, ◌++◌, replicate, Result,
  Bool-cases, inl, inr, ok-injective, ok, err, assertion, ◌>>=◌, arith,
}
use indecorous.Sync.WaitObject.{WaitResult, success, interrupted, object_lost}
use indecorous.Sync.MultipleWait.{
  Waiter, any, create, add_item, ready, item_finished, begin_all, wait,
}

-- The coroutine is suspended until its items have finished.
pub record IsSuspended (w : Waiter) : Type 0 where
  pub unready : w.is_ready ≡ false
  pub waiting : w.waiting ≡ true

-- A run of `item_finished`, for one item after another.
abbrev pub finish : List WaitResult → Waiter → Result Waiter
finish [] w = ok w
finish (r ∷ rs) w = do w' ← item_finished r w; finish rs w'

-- The waiter that was woken with `result`.
abbrev pub woken_with : WaitResult → ℕ → Waiter → Waiter
woken_with result needed w = record w {
  items = [];
  is_ready = true;
  waiting = false;
  needed = needed;
  result = result;
  woken = w.woken ++ result ∷ [];
}

one_fewer :
    (n : ℕ) (w : Waiter)
    → IsSuspended w
    → w.needed ≡ suc (suc n)
    → item_finished success w ≡ ok (record w { needed = w.needed - 1 })
unfolding item_finished ready
one_fewer n w s h = ground (arith, s.unready)

-- A suspended waiter that needs `n + 1` items, `n` of which succeed, is still suspended, and needs one.
-- Another success then wakes it, and so does a failure, with its own result.
pub finish-replicate :
    (n : ℕ) (last : WaitResult) (w : Waiter)
    → IsSuspended w
    → w.needed ≡ suc n
    → (needed : ℕ) × (finish (replicate n success ++ last ∷ []) w ≡ ok (woken_with last needed w))
unfolding item_finished ready
finish-replicate zero success w s h = (0, ground (arith, s.unready, s.waiting))
finish-replicate zero interrupted w s h = (1, ground (arith, s.unready, s.waiting))
finish-replicate zero object_lost w s h = (1, ground (arith, s.unready, s.waiting))
finish-replicate (suc n) last w s h =
    let (needed, e) =
      finish-replicate n last (record w { needed = w.needed - 1 })
        (record { unready = s.unready; waiting = s.waiting }) (omega arith) in
    (needed, rw (one_fewer n w s h) e)

none_needed :
    (w u : Waiter)
    → w.is_ready ≡ false
    → w.needed ≡ 1
    → item_finished success w ≡ ok u
    → u.needed ≡ 0
unfolding item_finished ready
none_needed w u unready one h = elim (Bool-cases w.waiting) [
  | inl e ↦ let q = ok-injective (rw (unready, one, e, item_finished, ready) at h) in rw (← q)
  | inr e ↦ let q = ok-injective (rw (unready, one, e, item_finished, ready) at h) in rw (← q)
]

finished_again :
    (result : WaitResult) (u : Waiter) → u.needed ≡ 0 → item_finished result u ≡ err assertion
unfolding item_finished
finished_again result u h = rw h

-- Once the last item that was needed has succeeded, any other item that finishes fails an assertion.
pub item_finished_again :
    (result : WaitResult) (w u : Waiter)
    → w.is_ready ≡ false
    → w.needed ≡ 1
    → item_finished success w ≡ ok u
    → item_finished result u ≡ err assertion
item_finished_again result w u unready one h =
    finished_again result u (none_needed w u unready one h)

-- Waiting for any of two objects that are both there already fails an assertion.
wait_any_two :
    (at_once : ℕ → Option WaitResult) (interruptor : Option WaitResult) (a b : ℕ)
    (result : WaitResult)
    → at_once a ≡ some success
    → at_once b ≡ some result
    → wait at_once interruptor (add_item b (add_item a (create any 2))) ≡ err assertion
unfolding wait begin_all add_item create item_finished ready
wait_any_two at_once interruptor a b result ea eb = rw (ea, eb)
