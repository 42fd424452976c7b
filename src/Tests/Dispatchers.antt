-- ===== src/Tests/Dispatchers.antt =====
-- The dispatcher of coroutines, of src/coro/coro.cc, at concrete inputs.
use indecorous.Base.{
  ℕ, ◌+◌, ◌%◌, ◌≤◌, ◌<◌, ◌≡◌, refl, none, some, [], ◌∷◌, replicate, Result, err, ok, arith,
}
use indecorous.Sync.WaitObject.{success, interrupted}
use indecorous.Coro.Dispatcher.{
  Dispatcher, round_size_up, create, run, wait, finish, notify, spawn, immediate, delayed, get,
  release, swap, switch_to, switch_to_main, note_new_task,
}
use indecorous.Coro.Dispatcher.Calls.{IsPlaced}
use indecorous.Coro.Dispatcher.History.{
  Reach, no_rpcs, runs_first, runs, waits, finishes, spawns, notifies, Reach-IsPlaced, call_spawn,
  Reach-Call,
}
use indecorous.Coro.Dispatcher.Slices.{yielding, leave_all, Reach-leave_all, round_size_up_bounds}

abbrev got : Result Dispatcher → Dispatcher
got (err fault) = create 0
got (ok d) = d

-- The initial coroutine puts 1 in the queue, and runs 2 at once, which ends. Then 1 waits, and so does 0,
-- and the main context runs.
abbrev first_run : Dispatcher
first_run = got (run (create 4))

abbrev queued_one : Dispatcher
queued_one = got (spawn delayed 0 first_run)

abbrev launched_two : Dispatcher
launched_two = got (spawn immediate 0 queued_one)

abbrev ended_two : Dispatcher
ended_two = got (finish 2 launched_two)

abbrev parked_one : Dispatcher
parked_one = got (wait 1 ended_two)

abbrev all_parked : Dispatcher
all_parked = got (wait 0 parked_one)

ended_two_run :
    (ended_two.running ≡ some 1) × ((ended_two.run_queue ≡ 0 ∷ []) × (ended_two.cache ≡ 2 ∷ []))
unfolding create run spawn get note_new_task swap switch_to switch_to_main finish release
ended_two_run = (refl, (refl, refl))

all_parked_run :
    (all_parked.running ≡ none) × ((all_parked.updates ≡ 1 ∷ []) × (all_parked.extant ≡ 2))
unfolding create run spawn get note_new_task swap switch_to switch_to_main finish release wait
all_parked_run = (refl, (refl, refl))

launched_reached : Reach 4 [] no_rpcs launched_two
unfolding create run spawn get note_new_task swap switch_to switch_to_main
launched_reached = spawns immediate 0 (spawns delayed 0 (runs_first refl) refl refl) refl refl

parked_reached : Reach 4 (0 ∷ 1 ∷ []) no_rpcs all_parked
unfolding create run spawn get note_new_task swap switch_to switch_to_main finish release wait
parked_reached = waits 0 (waits 1 (finishes 2 launched_reached refl refl) refl refl) refl refl

Reach-IsPlaced_example : IsPlaced (0 ∷ 1 ∷ []) no_rpcs all_parked
Reach-IsPlaced_example = Reach-IsPlaced 4 parked_reached

Reach-Call_example : (t : Dispatcher) × (spawn delayed 2 launched_two ≡ ok t)
unfolding create run spawn get note_new_task swap switch_to switch_to_main
Reach-Call_example = Reach-Call 4 launched_reached (call_spawn delayed 2 refl)

-- The two that wait are notified; 1 runs and ends, and 0 is interrupted and ends.
abbrev woken_one : Dispatcher
woken_one = got (notify 1 success all_parked)

abbrev woken_both : Dispatcher
woken_both = got (notify 0 interrupted woken_one)

abbrev again : Dispatcher
again = got (run woken_both)

abbrev ended_one : Dispatcher
ended_one = got (finish 1 again)

abbrev all_ended : Dispatcher
all_ended = got (finish 0 ended_one)

ended_reached : Reach 4 [] no_rpcs all_ended
unfolding create run spawn get note_new_task swap switch_to switch_to_main finish release wait
    notify
ended_reached =
    finishes 0
      (finishes 1
        (runs
          (notifies 0 [] [] interrupted (notifies 1 (0 ∷ []) [] success parked_reached refl) refl)
          refl refl)
        refl refl)
      refl refl

Reach-leave_all_example :
    (t : Dispatcher) × ((leave_all (replicate 100 yielding) launched_two ≡ ok t)
      × (t.running ≡ none))
Reach-leave_all_example = Reach-leave_all 4 (replicate 100 yielding) launched_reached (omega arith)

round_size_up_bounds_example :
    (n : ℕ) × ((round_size_up 131072 4096 ≡ ok n)
      × ((n % 4096 ≡ 0) × ((131072 ≤ n) × (n < 131072 + 4096))))
round_size_up_bounds_example = round_size_up_bounds 131072 4096 (omega arith) (omega arith)
