-- ===== src/Coro/Barrier/Onward.antt =====
-- src/coro/barrier.cc: no run of the threads of a barrier comes to a standstill.
use indecorous.Base.{ℕ, ◌+◌, ◌*◌, ◌≡◌, refl, List, [], ◌∷◌, ◌++◌, All, length, arith}
use indecorous.Coro.Barrier.{Side, other, Thread, outside, inside}
use indecorous.Coro.Barrier.Rounds.{waiting, is_side_refl, Stands, gathered, late}

-- Among threads that stand in a round: one outside, one late, or all have gathered.
data Found (side : Side) (ts : List Thread) : Type 0 where
  free : (xs ys : List Thread) (k : ℕ) → ts ≡ xs ++ outside k ∷ ys → Found side ts
  behind : (xs ys : List Thread) (k : ℕ) → ts ≡ xs ++ inside (other side) k ∷ ys → Found side ts
  all_here : waiting side ts ≡ length ts → Found side ts

found-cons :
    (side : Side) (k : ℕ) (ts : List Thread) → Found side ts → Found side (inside side k ∷ ts)
found-cons side k ts (free xs ys j e) = free (inside side k ∷ xs) ys j (rw e refl)
found-cons side k ts (behind xs ys j e) = behind (inside side k ∷ xs) ys j (rw e refl)
found-cons side k ts (all_here e) = all_here (rw (is_side_refl side, e) (omega arith))

find : (r : ℕ) (side : Side) (ts : List Thread) → All (Stands r side) ts → Found side ts
find r side [] h = all_here refl
find r side (outside k ∷ ts) h = free [] ts k refl
find r side (inside s k ∷ ts) (gathered e l, h) = rw e (found-cons side k ts (find r side ts h))
find r side (inside s k ∷ ts) (late e l, h) = behind [] ts k (rw e refl)

-- Twice the waits that a thread has left, and one more inside of a wait.
abbrev pub progress : Thread → ℕ
progress (outside k) = 2 * k
progress (inside side k) = 1 + 2 * k

abbrev pub sum_progress : List Thread → ℕ
sum_progress [] = 0
sum_progress (t ∷ ts) = progress t + sum_progress ts
