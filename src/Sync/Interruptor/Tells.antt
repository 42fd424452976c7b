-- ===== src/Sync/Interruptor/Tells.antt =====
-- src/sync/interruptor.cc: who is told when the object of an interruptor completes.
use indecorous.Base.{
  ok, ℕ, zero, suc, ◌+◌, ◌≡◌, refl, ap, inl, inr, Bool, true, false, ◌||◌, Bool-cases, List, [],
  ◌∷◌, ◌++◌, ◌==◌, if◌then◌else◌, subst, arith,
}
use indecorous.Sync.WaitObject.{Notice, success, interrupted, object_lost}
use indecorous.Sync.Interruptor.{
  Waiter, callback, inner, Chain, Told, tell, handle_triggered, handle_at, wait_done,
}
use indecorous.Sync.Interruptor.Nested.{is_empty, inners, IsNested}
use indecorous.Sync.Interruptor.History.{Reach, Reach-IsNested}

-- How often a callback is told that it was interrupted.
abbrev pub interruptions : ℕ → List Notice → ℕ
interruptions cb [] = 0
interruptions cb ((c, interrupted) ∷ ns) = (if c == cb then 1 else 0) + interruptions cb ns
interruptions cb ((c, success) ∷ ns) = interruptions cb ns
interruptions cb ((c, object_lost) ∷ ns) = interruptions cb ns

-- How often it waits on one interruptor.
abbrev pub waits_on : ℕ → List Waiter → ℕ
waits_on cb [] = 0
waits_on cb (callback c ∷ ws) = (if c == cb then 1 else 0) + waits_on cb ws
waits_on cb (inner ∷ ws) = waits_on cb ws

-- How often it waits on the interruptors from that depth on.
abbrev pub waits_from : ℕ → ℕ → Chain → ℕ
waits_from cb k [] = 0
waits_from cb zero (i ∷ rest) = waits_on cb i.waiters + waits_from cb zero rest
waits_from cb (suc k) (i ∷ rest) = waits_from cb k rest

interruptions-append :
    (cb : ℕ) (ns ms : List Notice)
    → interruptions cb (ns ++ ms) ≡ interruptions cb ns + interruptions cb ms
interruptions-append cb [] ms = omega arith
interruptions-append cb ((c, interrupted) ∷ ns) ms =
    let e = interruptions-append cb ns ms in omega (arith, e)
interruptions-append cb ((c, success) ∷ ns) ms = interruptions-append cb ns ms
interruptions-append cb ((c, object_lost) ∷ ns) ms = interruptions-append cb ns ms

interruptions-tell_none :
    (cb : ℕ) (handled : Told) (rest : Chain) (ws : List Waiter)
    → inners ws ≡ 0
    → interruptions cb (tell handled rest ws).0 ≡ waits_on cb ws
interruptions-tell_none cb handled rest [] h = refl
interruptions-tell_none cb handled rest (callback c ∷ ws) h =
    ap (λ n. (if c == cb then 1 else 0) + n) (interruptions-tell_none cb handled rest ws h)
interruptions-tell_none cb handled rest (inner ∷ ws) h = absurd (omega (arith, h))

interruptions-tell_one :
    (cb : ℕ) (handled : Told) (rest : Chain) (ws : List Waiter)
    → inners ws ≡ 1
    → interruptions cb (tell handled rest ws).0 ≡ waits_on cb ws + interruptions cb handled.0
interruptions-tell_one cb handled rest [] h = absurd (omega (arith, h))
interruptions-tell_one cb handled rest (callback c ∷ ws) h =
    let e = interruptions-tell_one cb handled rest ws h in omega (arith, e)
interruptions-tell_one cb handled rest (inner ∷ ws) h =
    let e = interruptions-append cb handled.0 (tell handled handled.1 ws).0 in
    let f = interruptions-tell_none cb handled handled.1 ws (omega (arith, h)) in
    omega (arith, e, f)

-- Nobody waits within a triggered interruptor.
waits_from-triggered :
    (cb : ℕ) (chain : Chain) (bs : List Bool) → IsNested true chain bs → waits_from cb 0 chain ≡ 0
unfolding IsNested
waits_from-triggered cb [] bs n = refl
waits_from-triggered cb (i ∷ rest) (b ∷ bs) (v, n) =
    let e = ap (waits_on cb) (v.quiet refl) in
    let f = waits_from-triggered cb rest bs n in omega (arith, e, f)
waits_from-triggered cb (i ∷ rest) [] n = absurd n

handle_triggered-interruptions :
    (cb : ℕ) (outer : Bool) (chain : Chain) (bs : List Bool)
    → IsNested outer chain bs
    → interruptions cb (handle_triggered chain).0 ≡ waits_from cb 0 chain
unfolding IsNested handle_triggered
handle_triggered-interruptions cb outer [] bs n = refl
handle_triggered-interruptions cb outer (i ∷ rest) [] n = absurd n
handle_triggered-interruptions cb outer (i ∷ rest) (b ∷ bs) (v, n) =
    elim (Bool-cases (outer || b)) [
      | inl done ↦
          let e =
            interruptions-tell_none cb (handle_triggered rest) rest i.waiters
              (ap inners (v.quiet done)) in
          let f = waits_from-triggered cb rest bs (subst (λ o. IsNested o rest bs) done n) in
          omega (arith, e, f)
      | inr open_ ↦
          go rest (v.linked open_) (handle_triggered-interruptions cb (outer || b) rest bs n)
    ]
  where
    go :
        (rest : Chain)
        → inners i.waiters ≡ (if is_empty rest then 0 else 1)
        → interruptions cb (handle_triggered rest).0 ≡ waits_from cb 0 rest
        → interruptions cb (tell (handle_triggered rest) rest i.waiters).0
          ≡ waits_on cb i.waiters + waits_from cb 0 rest
    go [] l h =
        let e = interruptions-tell_none cb (handle_triggered []) [] i.waiters l in omega (arith, e)
    go (j ∷ rest) l h =
        let e = interruptions-tell_one cb (handle_triggered (j ∷ rest)) (j ∷ rest) i.waiters l in
        omega (arith, e, h)

nested-interruptions :
    (cb k : ℕ) (outer : Bool) (chain : Chain) (bs : List Bool)
    → IsNested outer chain bs
    → interruptions cb (handle_at k chain).0 ≡ waits_from cb k chain
unfolding IsNested handle_at
nested-interruptions cb k outer [] bs n = refl
nested-interruptions cb zero outer (i ∷ rest) (b ∷ bs) n =
    handle_triggered-interruptions cb outer (i ∷ rest) (b ∷ bs) n
nested-interruptions cb (suc k) outer (i ∷ rest) (b ∷ bs) (v, n) =
    nested-interruptions cb k (outer || b) rest bs n
nested-interruptions cb k outer (i ∷ rest) [] n = absurd n

-- In any order of the calls, when the object of an interruptor completes, its `wait_done` ends well, and a
-- callback is told that it was interrupted just as often as it waits on that interruptor and on those within.
pub wait_done-interruptions :
    {bs : List Bool} {chain : Chain} (cb k : ℕ)
    → Reach bs chain
    → (told : Told) × ((wait_done success k chain ≡ ok told)
        × (interruptions cb told.0 ≡ waits_from cb k chain))
unfolding wait_done
wait_done-interruptions {chain} cb k r =
    (handle_at k chain, (refl, nested-interruptions cb k false _ _ (Reach-IsNested r)))
