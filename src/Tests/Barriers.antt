-- ===== src/Tests/Barriers.antt =====
-- A barrier of two threads, of src/coro/barrier.cc, at concrete inputs.
use indecorous.Base.{ℕ, ◌≤◌, refl, [], ◌∷◌, first, later, arith}
use indecorous.Coro.Barrier.{
  Side, side_a, side_b, System, outside, inside, Reach, start, next, waits, completes, create,
  arrive, passes,
}
use indecorous.Coro.Barrier.Progress.{left-le-entered}

-- The first thread waits on side A; the second has come and gone.
abbrev passed : System
passed = record {
  barrier = record { total = 2; side = side_b; count_a = 2; count_b = 0 };
  threads = inside side_a 0 ∷ outside 1 ∷ [];
}

passed_reached : Reach 2 2 passed
unfolding create arrive passes
passed_reached =
    next
      (next
        {t = record {
          barrier = record { total = 2; side = side_a; count_a = 1; count_b = 0 };
          threads = inside side_a 0 ∷ outside 0 ∷ [];
        }}
        start (waits [] (outside 0 ∷ []) 0 refl refl refl refl))
      (completes (inside side_a 0 ∷ []) [] 0 refl refl refl refl)

left-le-entered_example : 1 ≤ 1
left-le-entered_example =
    left-le-entered (outside 1) (inside side_a 0) (omega arith) passed_reached (later first) first

-- A barrier of one thread, which comes and goes twice, and twice more.
abbrev alone : ℕ → Side → ℕ → ℕ → System
alone k side a b = record {
  barrier = record { total = 1; side = side; count_a = a; count_b = b };
  threads = outside k ∷ [];
}
