-- ===== src/Tests/Interruptors.antt =====
-- The interruptors of src/sync/interruptor.cc at concrete inputs.
use indecorous.Base.{ok, err, assertion, ◌≡◌, refl, true, false, [], ◌∷◌}
use indecorous.Sync.WaitObject.{success, interrupted, object_lost}
use indecorous.Sync.Interruptor.{
  Chain, Told, create, handle_at, wait_done, handle_triggered, add_wait,
}
use indecorous.Sync.Interruptor.Nested.{IsNested}
use indecorous.Sync.Interruptor.History.{start, creates, completes, waits, Reach-IsNested}
use indecorous.Sync.Interruptor.Tells.{interruptions, waits_from, wait_done-interruptions}

-- Two interruptors, the callback 7 waits on the inner one, and the object of the outer one completes.
abbrev two : Chain
two = (add_wait 7 1 (create false (create false []))).1

abbrev two_told : Told
two_told = handle_at 0 two

told_seven : two_told.0 ≡ (7, interrupted) ∷ []
unfolding add_wait create handle_at handle_triggered
told_seven = refl

not_a_success : wait_done object_lost 0 two ≡ err assertion
unfolding wait_done
not_a_success = refl

Reach-IsNested_example : IsNested false two_told.1 (true ∷ false ∷ [])
unfolding wait_done
Reach-IsNested_example =
    Reach-IsNested
      (completes success 0 two_told (waits 7 1 (creates false (creates false start))) refl)

wait_done-interruptions_example :
    (told : Told) × ((wait_done success 0 two ≡ ok told)
      × (interruptions 7 told.0 ≡ waits_from 7 0 two))
wait_done-interruptions_example =
    wait_done-interruptions 7 0 (waits 7 1 (creates false (creates false start)))
