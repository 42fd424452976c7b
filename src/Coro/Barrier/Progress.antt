-- ===== src/Coro/Barrier/Progress.antt =====
-- src/coro/barrier.cc: what every run of the threads of a barrier satisfies.
use indecorous.Base.{
  ℕ, zero, suc, ◌+◌, ◌≤◌, ◌<◌, ◌≡◌, inr, refl, All, All-at, Among, replicate, length-replicate, sym,
  arith,
}
use indecorous.Coro.Barrier.{
  Side, side_a, side_b, create, arrive, Thread, outside, inside, System, Step, waits, completes,
  wakes, Reach, start, next,
}
use indecorous.Coro.Barrier.Rounds.{
  left, entered, waiting, Stands, before, gathered, late, IsAligned,
}
use indecorous.Coro.Barrier.Steps.{
  arrive_on-Waited, arrive_on-Completed, waits-IsAligned, completes-IsAligned, wakes-IsAligned,
}

all-outside : (n : ℕ) → All (Stands 0 side_a) (replicate n (outside 0))
all-outside zero = tt
all-outside (suc n) = (before refl, all-outside n)

none-waiting : (side : Side) (n : ℕ) → waiting side (replicate n (outside 0)) ≡ 0
none-waiting side zero = refl
none-waiting side (suc n) = none-waiting side n

Step-IsAligned :
    (total r : ℕ) (s t : System) → IsAligned total r s → Step s t → (q : ℕ) × IsAligned total q t
unfolding arrive
Step-IsAligned total r s t v (waits xs ys k e a b h) = (
  r,
  waits-IsAligned total r s t xs ys k v e (rw b (arrive_on-Waited s.barrier.side s.barrier a)) h,
)
Step-IsAligned total r s t v (completes xs ys k e a b h) = (
  1 + r,
  completes-IsAligned total r s t xs ys k v e
      (rw b (arrive_on-Completed s.barrier.side s.barrier a)) h,
)
Step-IsAligned total r s t v (wakes xs ys w k e p b h) =
    (r, wakes-IsAligned total r s t xs ys w k v e p b h)

pub Reach-IsAligned :
    {total n : ℕ} {s : System} → 0 < total → Reach total n s → (r : ℕ) × IsAligned total r s
unfolding create
Reach-IsAligned {total} small start = (
  0,
  record {
    each = all-outside total;
    bound = refl;
    size = length-replicate total (outside 0);
    few = small;
    here = sym (none-waiting side_a total);
    there = inr (none-waiting side_b total);
  },
)
Reach-IsAligned {total} small (next {s} {t} r p) =
    let (q, v) = Reach-IsAligned small r in Step-IsAligned total q s t v p

left-le : (r : ℕ) (side : Side) (t : Thread) → Stands r side t → left t ≤ r
left-le r side (outside k) (before e) = omega arith
left-le r side (inside s k) (gathered e l) = omega arith
left-le r side (inside s k) (late e l) = omega arith

le-entered : (r : ℕ) (side : Side) (t : Thread) → Stands r side t → r ≤ entered t
le-entered r side (outside k) (before e) = omega arith
le-entered r side (inside s k) (gathered e l) = omega arith
le-entered r side (inside s k) (late e l) = omega arith

-- With `total` threads, no thread has left more waits than any other has entered: nobody passes the
-- barrier before everybody has come to it.
pub left-le-entered :
    {total n : ℕ} {s : System} (t u : Thread)
    → 0 < total
    → Reach total n s
    → Among t s.threads
    → Among u s.threads
    → left t ≤ entered u
left-le-entered {s} t u small reach a b =
    let (r, v) = Reach-IsAligned small reach in
    let l = left-le r s.barrier.side t (All-at (Stands r s.barrier.side) s.threads v.each a) in
    let e = le-entered r s.barrier.side u (All-at (Stands r s.barrier.side) s.threads v.each b) in
    omega (arith, l, e)
