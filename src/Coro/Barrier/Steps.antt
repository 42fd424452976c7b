-- ===== src/Coro/Barrier/Steps.antt =====
-- src/coro/barrier.cc: each step of a thread keeps the threads within one round of each other.
use indecorous.Base.{
  ℕ, ◌+◌, ◌≡◌, inl, inr, refl, true, false, Bool-cases, List, ◌∷◌, ◌++◌, All, All-append,
  All-of_append, length, length-append, ◌==◌, subst, arith,
}
use indecorous.Coro.Barrier.{
  Side, side_a, side_b, Barrier, other, count, passes, arrive_on, leave, Thread, outside, inside,
  System,
}
use indecorous.Coro.Barrier.Rounds.{
  waiting, Stands, before, gathered, late, IsAligned, waiting-append, waiting-le, is_side,
  is_side_refl, is_side-other, other-is_side, other-other, all-late,
}

-- What an arrival does to the counts: one that waits, and the last one.
pub record Waited (side : Side) (b t : Barrier) : Type 0 where
  total : t.total ≡ b.total
  same : t.side ≡ b.side
  here : count side t ≡ 1 + count side b
  there : count (other side) t ≡ count (other side) b
  more : (1 + count side b == b.total) ≡ false

pub record Completed (side : Side) (b t : Barrier) : Type 0 where
  total : t.total ≡ b.total
  flipped : t.side ≡ other side
  here : count side t ≡ b.total
  there : count (other side) t ≡ 0
  last : 1 + count side b ≡ b.total

pub arrive_on-Waited :
    (side : Side) (b : Barrier) → (arrive_on side b).1 ≡ false → Waited side b (arrive_on side b).0
unfolding passes
arrive_on-Waited side_a b h = elim (Bool-cases (1 + b.count_a == b.total)) [
  | inl e ↦ cc (rw e at h)
  | inr e ↦ rw e (record { total = refl; same = refl; here = refl; there = refl; more = e })
]
arrive_on-Waited side_b b h = elim (Bool-cases (1 + b.count_b == b.total)) [
  | inl e ↦ cc (rw e at h)
  | inr e ↦ rw e (record { total = refl; same = refl; here = refl; there = refl; more = e })
]

pub arrive_on-Completed :
    (side : Side) (b : Barrier)
    → (arrive_on side b).1 ≡ true
    → Completed side b (arrive_on side b).0
unfolding passes
arrive_on-Completed side_a b h = elim (Bool-cases (1 + b.count_a == b.total)) [
  | inr e ↦ cc (rw e at h)
  | inl e ↦
      let full : 1 + b.count_a ≡ b.total = ground arith in
      rw e (record { total = refl; flipped = refl; here = full; there = refl; last = full })
]
arrive_on-Completed side_b b h = elim (Bool-cases (1 + b.count_b == b.total)) [
  | inr e ↦ cc (rw e at h)
  | inl e ↦
      let full : 1 + b.count_b ≡ b.total = ground arith in
      rw e (record { total = refl; flipped = refl; here = full; there = refl; last = full })
]

-- The same with one thread of the list changed.
put-Stands :
    (r : ℕ) (side : Side) (xs ys : List Thread) (u v : Thread)
    → All (Stands r side) (xs ++ u ∷ ys)
    → Stands r side v
    → All (Stands r side) (xs ++ v ∷ ys)
put-Stands r side xs ys u v h s =
    let (l, k) = All-of_append (Stands r side) xs (u ∷ ys) h in
    All-append (Stands r side) xs (v ∷ ys) l (s, k.1)

Stands-at :
    (r : ℕ) (side : Side) (xs ys : List Thread) (u : Thread)
    → All (Stands r side) (xs ++ u ∷ ys)
    → Stands r side u
Stands-at r side xs ys u h = (All-of_append (Stands r side) xs (u ∷ ys) h).1.0

length-put : (xs ys : List Thread) (u v : Thread) → length (xs ++ u ∷ ys) ≡ length (xs ++ v ∷ ys)
length-put xs ys u v = omega (arith, length-append xs (u ∷ ys), length-append xs (v ∷ ys))

-- A thread between `xs` and `ys` that comes in or goes out.
waiting-gathered :
    (side : Side) (xs ys : List Thread) (j k : ℕ)
    → waiting side (xs ++ inside side k ∷ ys) ≡ 1 + waiting side (xs ++ outside j ∷ ys)
waiting-gathered side xs ys j k =
    rw
      (
        waiting-append side xs (inside side k ∷ ys),
        waiting-append side xs (outside j ∷ ys),
        is_side_refl side,
      )
      (omega arith)

waiting-apart :
    (side w : Side) (xs ys : List Thread) (j k : ℕ)
    → is_side side w ≡ false
    → waiting side (xs ++ inside w k ∷ ys) ≡ waiting side (xs ++ outside j ∷ ys)
waiting-apart side w xs ys j k h =
    rw (waiting-append side xs (inside w k ∷ ys), waiting-append side xs (outside j ∷ ys), h) refl

pub waits-IsAligned :
    (total r : ℕ) (s t : System) (xs ys : List Thread) (k : ℕ)
    → IsAligned total r s
    → s.threads ≡ xs ++ outside k ∷ ys
    → Waited s.barrier.side s.barrier t.barrier
    → t.threads ≡ xs ++ inside s.barrier.side k ∷ ys
    → IsAligned total r t
waits-IsAligned total r s t xs ys k v e w h =
    let side = s.barrier.side in
    let old : All (Stands r side) (xs ++ outside k ∷ ys) = subst (All (Stands r side)) e v.each in
    let mine : k ≡ r = (elim (Stands-at r side xs ys (outside k) old) [ before l ↦ l ]) in
    let new = put-Stands r side xs ys (outside k) (inside side k) old (gathered refl mine) in
    let apart = waiting-apart (other side) side xs ys k k (other-is_side side) in
    let open_ : (1 + count side s.barrier == total) ≡ false = cc (w.more, v.bound) in
    record {
      each = rw (h, w.same) new;
      bound = cc (w.total, v.bound);
      size =
          rw h
            (omega (arith, v.size, rw e at v.size, length-put xs ys (outside k) (inside side k)));
      few = simp (w.same, w.here) (ground (arith, v.few, open_));
      here = simp (w.same, w.here, h, waiting-gathered side xs ys k k) (cc (v.here, e));
      there = simp (w.same, w.there, h, apart) (rw e at v.there);
    }

leave-side : (w : Side) (b : Barrier) → (leave w b).side ≡ other w
unfolding leave
leave-side w b = refl

leave-total : (w : Side) (b : Barrier) → (leave w b).total ≡ b.total
unfolding leave
leave-total w b = refl

leave-count : (s w : Side) (b : Barrier) → count s (leave w b) ≡ count s b
unfolding leave
leave-count side_a w b = refl
leave-count side_b w b = refl

pub completes-IsAligned :
    (total r : ℕ) (s t : System) (xs ys : List Thread) (k : ℕ)
    → IsAligned total r s
    → s.threads ≡ xs ++ outside k ∷ ys
    → Completed s.barrier.side s.barrier t.barrier
    → t.threads ≡ xs ++ outside (1 + k) ∷ ys
    → IsAligned total (1 + r) t
completes-IsAligned total r s t xs ys k v e w h =
    let side = s.barrier.side in
    let old : All (Stands r side) (xs ++ outside k ∷ ys) = subst (All (Stands r side)) e v.each in
    let mine : k ≡ r = (elim (Stands-at r side xs ys (outside k) old) [ before l ↦ l ]) in
    let (l, m) = All-of_append (Stands r side) xs (outside k ∷ ys) old in
    let size : length (xs ++ outside k ∷ ys) ≡ total = rw e at v.size in
    let here : count side s.barrier ≡ waiting side (xs ++ outside k ∷ ys) = rw e at v.here in
    let long = length-append xs (outside k ∷ ys) in
    let sum = waiting-append side xs (outside k ∷ ys) in
    let full_x : waiting side xs ≡ length xs =
      omega
        (arith, size, here, w.last, v.bound, long, sum, waiting-le side xs, waiting-le side ys) in
    let full_y : waiting side ys ≡ length ys =
      omega
        (arith, size, here, w.last, v.bound, long, sum, waiting-le side xs, waiting-le side ys) in
    let (late_x, none_x) = all-late r side xs full_x l in
    let (late_y, none_y) = all-late r side ys full_y m.1 in
    let none : waiting (other side) (xs ++ outside (1 + k) ∷ ys) ≡ 0 =
      omega (arith, none_x, none_y, waiting-append (other side) xs (outside (1 + k) ∷ ys)) in
    record {
      each =
          rw (h, w.flipped)
            (All-append (Stands (1 + r) (other side)) xs (outside (1 + k) ∷ ys) late_x
              (before (omega (arith, mine)), late_y));
      bound = cc (w.total, v.bound);
      size = rw h (omega (arith, size, length-put xs ys (outside k) (outside (1 + k))));
      few = simp (w.flipped, w.there) (omega (arith, w.last, v.bound));
      here = simp (w.flipped, w.there, h, none) refl;
      there = simp (w.flipped, other-other side) (inl (cc (w.here, v.bound)));
    }

pub wakes-IsAligned :
    (total r : ℕ) (s t : System) (xs ys : List Thread) (w : Side) (k : ℕ)
    → IsAligned total r s
    → s.threads ≡ xs ++ inside w k ∷ ys
    → passes w s.barrier ≡ true
    → t.barrier ≡ leave w s.barrier
    → t.threads ≡ xs ++ outside (1 + k) ∷ ys
    → IsAligned total r t
unfolding passes
wakes-IsAligned total r s t xs ys w k v e p b h =
    let side = s.barrier.side in
    let old : All (Stands r side) (xs ++ inside w k ∷ ys) = subst (All (Stands r side)) e v.each in
    elim (Stands-at r side xs ys (inside w k) old) [
      | gathered same l ↦
          let full : (count side s.barrier == s.barrier.total) ≡ true = (rw same at p) in
          absurd (ground (arith, v.few, full, v.bound))
      | late same l ↦
          let back : other w ≡ side = cc (same, other-other side) in
          let new = put-Stands r side xs ys (inside w k) (outside (1 + k)) old (before l) in
          let apart : waiting side (xs ++ inside w k ∷ ys)
              ≡ waiting side (xs ++ outside (1 + k) ∷ ys) =
            waiting-apart side w xs ys (1 + k) k (rw same (is_side-other side)) in
          let full : count w s.barrier ≡ total = ground (arith, p, v.bound) in
          record {
            each = rw (h, b, leave-side w s.barrier, back) new;
            bound = rw (b, leave-total w s.barrier) v.bound;
            size =
                rw h
                  (omega (arith, rw e at v.size, length-put xs ys (inside w k) (outside (1 + k))));
            few = simp (b, leave-side w s.barrier, back, leave-count side w s.barrier) v.few;
            here =
                simp (b, leave-side w s.barrier, back, leave-count side w s.barrier, h)
                  (cc (v.here, e, apart));
            there =
                simp (b, leave-side w s.barrier, back, leave-count (other side) w s.barrier)
                  (inl (cc (same, full)));
          }
    ]
