-- ===== src/Tests/Shutdowns.antt =====
-- The counter of tasks, of src/coro/shutdown.cc, at concrete inputs.
use indecorous.Base.{◌≡◌, refl, [], ◌∷◌, arith}
use indecorous.Coro.Shutdown.{
  begin_call, finish_call, Shutdown, create, reset, complete, update, begin_shutdown,
}
use indecorous.Coro.Shutdown.Ledger.{
  delta, finished, resets, works, begins, ends, Tells, Reach-Tells,
}

-- One task is there from the start, and it starts a second one, which ends; behind `begin_shutdown` the
-- first one and the messages end.
abbrev one_left : Shutdown
one_left = update (delta 1 1) (reset 1 (create (0 ∷ 1 ∷ [])))

abbrev two_told : Shutdown
two_told = begin_shutdown one_left

abbrev all_told : Shutdown
all_told = update (delta 0 3) two_told

all_told_run : all_told.sent ≡ begin_call 0 ∷ begin_call 1 ∷ finish_call 0 ∷ finish_call 1 ∷ []
unfolding create reset complete update begin_shutdown
all_told_run = refl

Reach-Tells_example : Tells (0 ∷ 1 ∷ []) finished 2 all_told
Reach-Tells_example = Reach-Tells (0 ∷ 1 ∷ []) (
    ends 0 3
      (begins
        (works 1 1 1 (resets 1 (omega arith) (omega arith) (omega arith)) refl (omega arith)
          (omega arith) (omega arith) tt)
        (omega arith))
      refl (omega arith) (omega arith))
