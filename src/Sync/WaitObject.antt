-- ===== src/Sync/WaitObject.antt =====
-- src/sync/wait_object.hpp and wait_object.cc. A callback is a number, and a run of `wait_done` on it
-- is an entry of a log.
use indecorous.Base.{ℕ, List, map}

-- `wait_result_t`
pub data WaitResult : Type 0 where
  success interrupted object_lost : WaitResult

-- A call `cb->wait_done(result)`.
abbrev pub Notice : Type 0
Notice = ℕ × WaitResult

-- `m_waiters.clear([] (auto w) { w->wait_done(result); })`: every waiter is told, in order.
abbrev pub notices : WaitResult → List ℕ → List Notice
notices result = map (λ w. (w, result))

-- The exceptions of `check_wait_result`.
pub data WaitException : Type 0 where
  wait_interrupted wait_object_lost : WaitException

pub data Checked : Type 0 where
  returned : Checked
  thrown : WaitException → Checked

-- `check_wait_result`
unfoldable pub check_wait_result : WaitResult → Checked
check_wait_result success = returned
check_wait_result interrupted = thrown wait_interrupted
check_wait_result object_lost = thrown wait_object_lost
