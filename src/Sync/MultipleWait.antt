-- ===== src/Sync/MultipleWait.antt =====
-- src/sync/multiple_wait.hpp and multiple_wait.cc: a coroutine that waits for one or for all of several
-- objects. An item is a number; the log has the results that the coroutine was woken with.
pub mod Completion
use indecorous.Base.{
  ℕ, ◌+◌, ◌-◌, Bool, true, false, not, Option, none, some, List, [], ◌∷◌, ◌++◌, Result, ok, assert,
  ◌>>=◌, ◌>>◌, ltb, ◌==◌, if◌then◌else◌,
}
use indecorous.Sync.WaitObject.{
  WaitResult, success, interrupted, object_lost, Checked, check_wait_result,
}

-- `wait_type_t`
pub data WaitType : Type 0 where
  any all : WaitType

-- `multiple_waiter_t`
pub record Waiter : Type 0 where
  pub items : List ℕ
  pub is_ready : Bool
  pub waiting : Bool
  pub needed : ℕ
  pub result : WaitResult
  pub woken : List WaitResult

abbrev needed_for : WaitType → ℕ → ℕ
needed_for any total = 1
needed_for all total = total

-- `multiple_waiter_t(type, total)`
unfoldable pub create : WaitType → ℕ → Waiter
create type total = record {
  items = [];
  is_ready = false;
  waiting = false;
  needed = needed_for type total;
  result = success;
  woken = [];
}

-- `add_item`
unfoldable pub add_item : ℕ → Waiter → Waiter
add_item cb w = record w { items = w.items ++ cb ∷ [] }

-- `multiple_waiter_t::ready`: a coroutine that waits is woken, and its other items are cancelled.
unfoldable pub ready : WaitResult → Waiter → Result Waiter
ready result w = do
  assert (not w.is_ready)
  ok (
      if w.waiting
      then record w {
        items = [];
        is_ready = true;
        waiting = false;
        result = result;
        woken = w.woken ++ result ∷ [];
      }
      else record w { is_ready = true; result = result })

abbrev is_success : WaitResult → Bool
is_success success = true
is_success interrupted = false
is_success object_lost = false

-- `multiple_waiter_t::item_finished`
unfoldable pub item_finished : WaitResult → Waiter → Result Waiter
unfolding ready
item_finished result w =
    let fewer = record w { needed = w.needed - 1 } in
    let failed = ready result w in
    let done = ready success fewer in
    (do
      assert (ltb 0 w.needed)
      (if w.is_ready
          then ok (if is_success result then w else record w { result = result })
          else if is_success result
          then (if w.needed - 1 == 0 then done else ok fewer)
          else failed))

-- `multiple_waiter_t::wait_done`, by the interruptor.
unfoldable pub wait_done : WaitResult → Waiter → Result Waiter
unfolding ready
wait_done result w =
    let woken = ready (if is_success result then interrupted else result) w in
    if w.is_ready then ok w else woken

-- `begin_wait` of every item, in order: `at_once` says what the item's object gives without waiting.
unfoldable pub begin_all : (ℕ → Option WaitResult) → List ℕ → Waiter → Result Waiter
unfolding item_finished
begin_all at_once [] w = ok w
begin_all at_once (cb ∷ rest) w = elim (at_once cb) [
  | none ↦ begin_all at_once rest w
  | some result ↦ (do w' ← item_finished result w; begin_all at_once rest w')
]

-- The interruptor's `add_wait`: what it gives without waiting.
abbrev interrupt : Option WaitResult → Waiter → Result Waiter
interrupt none w = ok w
interrupt (some result) w = wait_done result w

-- `multiple_waiter_t::wait`: the coroutine is suspended (`none`), or the result is checked at once.
unfoldable pub wait :
    (ℕ → Option WaitResult) → Option WaitResult → Waiter → Result (Waiter × Option Checked)
unfolding begin_all wait_done
wait at_once interruptor w = do
  started ← begin_all at_once w.items w
  w' ← interrupt interruptor started
  ok (
      if w'.is_ready
      then (record w' { items = [] }, some (check_wait_result w'.result))
      else (record w' { waiting = true }, none))

-- `~multiple_waiter_t`
unfoldable pub destroy : Waiter → Result (Unit {0})
destroy w = assert w.is_ready
