-- ===== src/Sync/Interruptor/Nested.antt =====
-- src/sync/interruptor.cc: an interruptor is triggered by its own object and by those around it.
use indecorous.Base.{
  ℕ, zero, suc, ◌≡◌, refl, ap, inl, inr, Bool, true, false, ◌||◌, Bool-cases, List, [], ◌∷◌,
  if◌then◌else◌, subst, arith,
}
use indecorous.Sync.Interruptor.{
  Waiter, callback, inner, Interruptor, Chain, Told, tell, handle_triggered, handle_at,
}

abbrev pub is_empty : Chain → Bool
is_empty [] = true
is_empty (i ∷ rest) = false

-- The entries of the next inner interruptor
abbrev pub inners : List Waiter → ℕ
inners [] = 0
inners (callback cb ∷ waiters) = inners waiters
inners (inner ∷ waiters) = suc (inners waiters)

-- One interruptor, where `done` is whether its object or one around it has completed: it is triggered just
-- then; nobody waits on a triggered one; and the next inner one waits once on one that is not.
pub record IsLinked (done : Bool) (last : Bool) (i : Interruptor) : Type 0 where
  pub state : i.triggered ≡ done
  pub quiet : done ≡ true → i.waiters ≡ []
  pub linked : done ≡ false → inners i.waiters ≡ (if last then 0 else 1)

-- The interruptors of a coroutine with whether the object of each has completed, in the same order; `outer`
-- is whether one around them has.
unfoldable pub IsNested : Bool → Chain → List Bool → Type 0
IsNested outer [] [] = Unit
IsNested outer [] (b ∷ bs) = ⊥
IsNested outer (i ∷ rest) [] = ⊥
IsNested outer (i ∷ rest) (b ∷ bs) =
    IsLinked (outer || b) (is_empty rest) i × IsNested (outer || b) rest bs

pub or-true : (a : Bool) → (a || true) ≡ true
or-true true = refl
or-true false = refl

tell-none :
    (handled : Told) (rest : Chain) (ws : List Waiter)
    → inners ws ≡ 0
    → (tell handled rest ws).1 ≡ rest
tell-none handled rest [] h = refl
tell-none handled rest (callback cb ∷ ws) h = tell-none handled rest ws h
tell-none handled rest (inner ∷ ws) h = absurd (omega (arith, h))

tell-one :
    (handled : Told) (rest : Chain) (ws : List Waiter)
    → inners ws ≡ 1
    → (tell handled rest ws).1 ≡ handled.1
tell-one handled rest [] h = absurd (omega (arith, h))
tell-one handled rest (callback cb ∷ ws) h = tell-one handled rest ws h
tell-one handled rest (inner ∷ ws) h = tell-none handled handled.1 ws (omega (arith, h))

-- What was told the interruptors within
handled-IsNested :
    (outer b : Bool) (i : Interruptor) (rest : Chain) (bs : List Bool)
    → IsLinked (outer || b) (is_empty rest) i
    → IsNested (outer || b) rest bs
    → IsNested true (handle_triggered rest).1 bs
    → IsNested true (tell (handle_triggered rest) rest i.waiters).1 bs
unfolding handle_triggered
handled-IsNested outer b i rest bs v n h = elim (Bool-cases (outer || b)) [
  | inl done ↦
      let same = tell-none (handle_triggered rest) rest i.waiters (ap inners (v.quiet done)) in
      rw same (subst (λ o. IsNested o rest bs) done n)
  | inr open_ ↦ go rest n h v.linked open_
]
  where
    go :
        (rest : Chain)
        → IsNested (outer || b) rest bs
        → IsNested true (handle_triggered rest).1 bs
        → ((outer || b) ≡ false → inners i.waiters ≡ (if is_empty rest then 0 else 1))
        → (outer || b) ≡ false
        → IsNested true (tell (handle_triggered rest) rest i.waiters).1 bs
    go [] n h l open_ =
        let same = tell-none (handle_triggered []) [] i.waiters (l open_) in rw same h
    go (j ∷ rest) n h l open_ =
        rw (tell-one (handle_triggered (j ∷ rest)) (j ∷ rest) i.waiters (l open_)) h

handle_triggered-IsNested :
    (outer : Bool) (chain : Chain) (bs : List Bool)
    → IsNested outer chain bs
    → IsNested true (handle_triggered chain).1 bs
unfolding IsNested handle_triggered
handle_triggered-IsNested outer [] [] n = tt
handle_triggered-IsNested outer [] (b ∷ bs) n = n
handle_triggered-IsNested outer (i ∷ rest) [] n = n
handle_triggered-IsNested outer (i ∷ rest) (b ∷ bs) (v, n) = (
  record { state = refl; quiet = λ d. refl; linked = λ d. cc },
  handled-IsNested outer b i rest bs v n (handle_triggered-IsNested (outer || b) rest bs n),
)

-- The object at that depth has completed.
abbrev pub complete : ℕ → List Bool → List Bool
complete k [] = []
complete zero (b ∷ bs) = true ∷ bs
complete (suc k) (b ∷ bs) = b ∷ complete k bs

is_empty-handle_at : (k : ℕ) (chain : Chain) → is_empty (handle_at k chain).1 ≡ is_empty chain
unfolding handle_at
is_empty-handle_at k [] = refl
is_empty-handle_at zero (i ∷ rest) = refl
is_empty-handle_at (suc k) (i ∷ rest) = refl

pub handle_at-IsNested :
    (k : ℕ) (outer : Bool) (chain : Chain) (bs : List Bool)
    → IsNested outer chain bs
    → IsNested outer (handle_at k chain).1 (complete k bs)
unfolding IsNested handle_at
handle_at-IsNested k outer [] [] n = tt
handle_at-IsNested zero outer (i ∷ rest) (b ∷ bs) (v, n) =
    let all = handle_triggered-IsNested (outer || b) rest bs n in
    rw (or-true outer) (
      record { state = refl; quiet = λ d. refl; linked = λ d. cc },
      handled-IsNested outer b i rest bs v n all,
    )
handle_at-IsNested (suc k) outer (i ∷ rest) (b ∷ bs) (v, n) =
    (rw (is_empty-handle_at k rest) v, handle_at-IsNested k (outer || b) rest bs n)
handle_at-IsNested k outer [] (b ∷ bs) n = absurd n
handle_at-IsNested k outer (i ∷ rest) [] n = absurd n
