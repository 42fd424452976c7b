-- ===== src/Coro/Barrier/Rounds.antt =====
-- src/coro/barrier.cc: the threads stay within one round of each other, and every run goes on.
use indecorous.Base.{
  ℕ, ◌+◌, ◌≤◌, ◌<◌, ◌≡◌, ◌⊎◌, refl, Bool, true, false, List, [], ◌∷◌, ◌++◌, All, length,
  if◌then◌else◌, arith,
}
use indecorous.Coro.Barrier.{Side, side_a, side_b, other, count, Thread, outside, inside, System}

-- The waits that a thread has left, and those that it has entered.
abbrev pub left : Thread → ℕ
left (outside k) = k
left (inside side k) = k

abbrev pub entered : Thread → ℕ
entered (outside k) = k
entered (inside side k) = 1 + k

abbrev pub is_side : Side → Side → Bool
is_side side_a side_a = true
is_side side_a side_b = false
is_side side_b side_a = false
is_side side_b side_b = true

abbrev pub waiting : Side → List Thread → ℕ
waiting side [] = 0
waiting side (outside k ∷ ts) = waiting side ts
waiting side (inside s k ∷ ts) = if is_side side s then 1 + waiting side ts else waiting side ts

-- Where a thread stands when round `r` gathers on `side`.
pub data Stands (r : ℕ) (side : Side) : Thread → Type 0 where
  before : {k : ℕ} → k ≡ r → Stands r side (outside k)
  gathered : {s : Side} {k : ℕ} → s ≡ side → k ≡ r → Stands r side (inside s k)
  late : {s : Side} {k : ℕ} → s ≡ other side → 1 + k ≡ r → Stands r side (inside s k)

pub record IsAligned (total r : ℕ) (s : System) : Type 0 where
  pub each : All (Stands r s.barrier.side) s.threads
  pub bound : s.barrier.total ≡ total
  pub size : length s.threads ≡ total
  pub few : count s.barrier.side s.barrier < total
  pub here : count s.barrier.side s.barrier ≡ waiting s.barrier.side s.threads
  pub there :
      (count (other s.barrier.side) s.barrier ≡ total)
      ⊎ (waiting (other s.barrier.side) s.threads ≡ 0)

pub waiting-append :
    (side : Side) (xs ys : List Thread)
    → waiting side (xs ++ ys) ≡ waiting side xs + waiting side ys
waiting-append side [] ys = omega arith
waiting-append side (outside k ∷ xs) ys = waiting-append side xs ys
waiting-append side (inside s k ∷ xs) ys = ground (arith, waiting-append side xs ys)

pub waiting-le : (side : Side) (xs : List Thread) → waiting side xs ≤ length xs
waiting-le side [] = omega arith
waiting-le side (outside k ∷ xs) = omega (arith, waiting-le side xs)
waiting-le side (inside s k ∷ xs) = ground (arith, waiting-le side xs)

pub is_side-eq : (s t : Side) → is_side s t ≡ true → t ≡ s
is_side-eq side_a side_a h = refl
is_side-eq side_b side_b h = refl
is_side-eq side_a side_b h = cc
is_side-eq side_b side_a h = cc

pub is_side_refl : (s : Side) → is_side s s ≡ true
is_side_refl side_a = refl
is_side_refl side_b = refl

pub is_side-other : (s : Side) → is_side s (other s) ≡ false
is_side-other side_a = refl
is_side-other side_b = refl

pub other-is_side : (s : Side) → is_side (other s) s ≡ false
other-is_side side_a = refl
other-is_side side_b = refl

pub other-other : (s : Side) → other (other s) ≡ s
other-other side_a = refl
other-other side_b = refl

-- If all wait on the side that gathers, they are late on the next one, and nobody waits there.
pub all-late :
    (r : ℕ) (side : Side) (xs : List Thread)
    → waiting side xs ≡ length xs
    → All (Stands r side) xs
    → All (Stands (1 + r) (other side)) xs × (waiting (other side) xs ≡ 0)
all-late r side [] h v = (tt, refl)
all-late r side (outside k ∷ xs) h v = absurd (omega (arith, waiting-le side xs))
all-late r side (inside s k ∷ xs) h (gathered e l, v) =
    let rest : waiting side xs ≡ length xs = ground (arith, is_side_refl side) in
    let (ls, w) = all-late r side xs rest v in
    ((late (cc (e, other-other side)) (omega arith), ls), ground (arith, w, other-is_side side))
all-late r side (inside s k ∷ xs) h (late e l, v) =
    absurd (ground (arith, is_side-other side, waiting-le side xs))
