-- ===== src/Coro/Barrier.antt =====
-- src/coro/barrier.hpp and barrier.cc: `thread_barrier_t`. What runs under `m_lock` is one step: `wait` up
-- to its end or to the wait on the condition, and what comes behind that wait once its test holds. A
-- thread may wake at any time; where the test fails it waits on.
pub mod Rounds
pub mod Steps
pub mod Progress
pub mod Onward
use indecorous.Base.{
  ℕ, ◌+◌, ◌≡◌, Bool, true, false, List, [], ◌∷◌, ◌++◌, replicate, ◌==◌, if◌then◌else◌,
}

-- `side_t`
pub data Side : Type 0 where
  side_a side_b : Side

pub record Barrier : Type 0 where
  pub total : ℕ
  pub side : Side
  pub count_a : ℕ
  pub count_b : ℕ

-- `thread_barrier_t(total)`
unfoldable pub create : ℕ → Barrier
create total = record { total = total; side = side_a; count_a = 0; count_b = 0 }

abbrev pub other : Side → Side
other side_a = side_b
other side_b = side_a

abbrev pub count : Side → Barrier → ℕ
count side_a b = b.count_a
count side_b b = b.count_b

-- `++*count`, and `*reset = 0`
abbrev pub increment : Side → Barrier → Barrier
increment side_a b = record b { count_a = 1 + b.count_a }
increment side_b b = record b { count_b = 1 + b.count_b }

abbrev pub clear : Side → Barrier → Barrier
clear side_a b = record b { count_a = 0 }
clear side_b b = record b { count_b = 0 }

-- The test that ends the wait in `wait_internal`
unfoldable pub passes : Side → Barrier → Bool
passes side b = count side b == b.total

-- `wait_internal`, up to the wait on the condition: with whether the thread was the last one, and then to
-- its end, and to the assignment of `m_side` behind it.
abbrev pub arrive_on : Side → Barrier → Barrier × Bool
arrive_on side b =
    let counted = increment side b in
    if passes side counted
    then (record (clear (other side) counted) { side = other side }, true)
    else (counted, false)

-- `wait`
unfoldable pub arrive : Barrier → Barrier × Bool
arrive b = arrive_on b.side b

-- `wait`, behind the wait on the condition: the thread came in on that side.
unfoldable pub leave : Side → Barrier → Barrier
leave side b = record b { side = other side }

-- A thread that has left so many waits, and is outside of `wait` or waits on a side.
pub data Thread : Type 0 where
  outside : ℕ → Thread
  inside : Side → ℕ → Thread

pub record System : Type 0 where
  pub barrier : Barrier
  pub threads : List Thread

-- A step of the thread that stands between `xs` and `ys`.
pub data Step (s t : System) : Type 0 where
  waits :
      (xs ys : List Thread) (k : ℕ)
      → s.threads ≡ xs ++ outside k ∷ ys
      → (arrive s.barrier).1 ≡ false
      → t.barrier ≡ (arrive s.barrier).0
      → t.threads ≡ xs ++ inside s.barrier.side k ∷ ys
      → Step s t
  completes :
      (xs ys : List Thread) (k : ℕ)
      → s.threads ≡ xs ++ outside k ∷ ys
      → (arrive s.barrier).1 ≡ true
      → t.barrier ≡ (arrive s.barrier).0
      → t.threads ≡ xs ++ outside (1 + k) ∷ ys
      → Step s t
  wakes :
      (xs ys : List Thread) (side : Side) (k : ℕ)
      → s.threads ≡ xs ++ inside side k ∷ ys
      → passes side s.barrier ≡ true
      → t.barrier ≡ leave side s.barrier
      → t.threads ≡ xs ++ outside (1 + k) ∷ ys
      → Step s t

-- What `total` threads can reach in so many steps.
pub data Reach (total : ℕ) : ℕ → System → Type 0 where
  start : Reach total 0 (record { barrier = create total; threads = replicate total (outside 0) })
  next : {n : ℕ} {s t : System} → Reach total n s → Step s t → Reach total (1 + n) t
