-- ===== src/Tests/Semaphores.antt =====
-- Semaphores of src/sync/semaphore.cc at concrete inputs.
use indecorous.Base.{ℕ, ◌≡◌, refl, List, [], ◌∷◌, true, ok, arith}
use indecorous.Sync.Semaphore.{Semaphore, create, start_acq, add_wait, pump_waiters}
use indecorous.Sync.Semaphore.Lookup.{Acq, find, replace}
use indecorous.Sync.Semaphore.Pump.{Serves, pump_waiters-Serves}
use indecorous.Sync.Semaphore.Conservation.{IsValid}
use indecorous.Sync.Semaphore.History.{starts, waits, Reach, here, next, Reach-create-IsValid}

abbrev holder : ℕ → ℕ → Acq
holder id count = record { id = id; owned = count; pending = 0; attached = true; waiters = [] }

abbrev waiter : ℕ → ℕ → List ℕ → Acq
waiter id count waiters = record {
  id = id;
  owned = 0;
  pending = count;
  attached = true;
  waiters = waiters;
}

-- A semaphore of four: 10 holds three, and 11 waits for two with the callback 7.
abbrev busy : Semaphore
busy = record {
  capacity = 4;
  available = 1;
  acqs = holder 10 3 ∷ [];
  pending = waiter 11 2 (7 ∷ []) ∷ [];
  woken = [];
}

busy_reached : Reach (create 4) busy
unfolding create start_acq add_wait find replace
busy_reached = next (next (next here (starts 10 3 refl)) (starts 11 2 refl)) (waits 11 7 refl)

Reach-create-IsValid_example : IsValid busy
Reach-create-IsValid_example = Reach-create-IsValid 4 (omega arith) busy_reached

abbrev all_free : Semaphore
all_free = record busy { available = 4; acqs = [] }

pump_waiters-Serves_example :
    (t : Semaphore) × (pump_waiters all_free ≡ ok t) × Serves (waiter 11 2 (7 ∷ []) ∷ []) all_free t
pump_waiters-Serves_example =
    pump_waiters-Serves all_free (record { wants = omega arith; owns = refl; attached = refl }, tt)
