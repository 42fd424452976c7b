-- ===== src/Sync/Interruptor/History.antt =====
-- src/sync/interruptor.cc: the interruptors of a coroutine, in any order of its calls.
use indecorous.Base.{
  subst, ok, ok-injective, ℕ, zero, suc, ◌≡◌, refl, ap, ◌∙◌, sym, inl, inr, Bool, true, false, ◌||◌,
  Bool-cases, List, [], ◌∷◌, ◌++◌, ◌==◌, arith,
}
use indecorous.Sync.WaitObject.{WaitResult, success, interrupted, object_lost}
use indecorous.Sync.Interruptor.{
  Waiter, callback, inner, Interruptor, Chain, Told, handle_at, wait_done, fresh, create,
  remove_inner, destroy, add_wait, without, remove_wait,
}
use indecorous.Sync.Interruptor.Nested.{
  is_empty, inners, IsLinked, IsNested, complete, handle_at-IsNested,
}

or-false : (a : Bool) → (a || false) ≡ a
or-false true = refl
or-false false = refl

inners-snoc : (ws : List Waiter) → inners (ws ++ inner ∷ []) ≡ suc (inners ws)
inners-snoc [] = refl
inners-snoc (callback cb ∷ ws) = inners-snoc ws
inners-snoc (inner ∷ ws) = ap suc (inners-snoc ws)

inners-callback : (cb : ℕ) (ws : List Waiter) → inners (ws ++ callback cb ∷ []) ≡ inners ws
inners-callback cb [] = refl
inners-callback cb (callback c ∷ ws) = inners-callback cb ws
inners-callback cb (inner ∷ ws) = ap suc (inners-callback cb ws)

inners-remove : (ws : List Waiter) → inners ws ≡ 1 → inners (remove_inner ws) ≡ 0
inners-remove [] h = absurd (omega (arith, h))
inners-remove (callback cb ∷ ws) h = inners-remove ws h
inners-remove (inner ∷ ws) h = omega (arith, h)

inners-without : (cb : ℕ) (ws : List Waiter) → inners (without cb ws) ≡ inners ws
inners-without cb [] = refl
inners-without cb (callback c ∷ ws) = elim (Bool-cases (c == cb)) [
  | inl b ↦ rw b refl
  | inr b ↦ rw b (inners-without cb ws)
]
inners-without cb (inner ∷ ws) = ap suc (inners-without cb ws)

is_empty-create :
    (done : Bool) (i : Interruptor) (rest : Chain) → is_empty (create done (i ∷ rest)) ≡ false
unfolding create
is_empty-create done i [] = elim (Bool-cases i.triggered) [ inl b ↦ rw b refl | inr b ↦ rw b refl ]
is_empty-create done i (j ∷ rest) = refl

fresh-IsLinked : (done : Bool) → IsLinked done true (fresh done)
fresh-IsLinked done = record { state = refl; quiet = λ d. refl; linked = λ d. refl }

-- The one that was the last is told of the new one.
create-last :
    (outer b done : Bool) (i : Interruptor)
    → IsLinked (outer || b) true i
    → IsNested outer (create done (i ∷ [])) (b ∷ done ∷ [])
unfolding IsNested create
create-last outer b done i v = elim (Bool-cases (outer || b)) [
  | inl o ↦ rw (v.state ∙ o) (
      rw o (
        record { state = refl; quiet = λ d. v.quiet o; linked = λ d. cc },
        (fresh-IsLinked true, tt),
      ))
  | inr o ↦ rw (v.state ∙ o) (
      rw o (
        record {
          state = refl;
          quiet = λ d. cc;
          linked = λ d. inners-snoc i.waiters ∙ ap suc (v.linked o);
        },
        (fresh-IsLinked done, tt),
      ))
]

create-more :
    (outer b done : Bool) (i : Interruptor) (rest : Chain) (bs : List Bool)
    → IsNested outer (i ∷ rest) (b ∷ bs)
    → IsNested outer (create done (i ∷ rest)) (b ∷ (bs ++ done ∷ []))
unfolding IsNested create
create-more outer b done i [] [] (v, n) = create-last outer b done i v
create-more outer b done i (j ∷ rest) (c ∷ bs) (v, n) =
    (rw (is_empty-create done j rest) v, create-more (outer || b) c done j rest bs n)
create-more outer b done i [] (c ∷ bs) (v, n) = absurd n
create-more outer b done i (j ∷ rest) [] (v, n) = absurd n

create-IsNested :
    (done : Bool) (chain : Chain) (bs : List Bool)
    → IsNested false chain bs
    → IsNested false (create done chain) (bs ++ done ∷ [])
unfolding IsNested create
create-IsNested done [] [] n = (fresh-IsLinked done, tt)
create-IsNested done (i ∷ rest) (b ∷ bs) n = create-more false b done i rest bs n
create-IsNested done [] (b ∷ bs) n = absurd n
create-IsNested done (i ∷ rest) [] n = absurd n

abbrev pub without_last : List Bool → List Bool
without_last [] = []
without_last (b ∷ []) = []
without_last (b ∷ c ∷ bs) = b ∷ without_last (c ∷ bs)

is_empty-destroy : (i j : Interruptor) (rest : Chain) → is_empty (destroy (i ∷ j ∷ rest)).1 ≡ false
unfolding destroy
is_empty-destroy i j [] = refl
is_empty-destroy i j (k ∷ rest) = refl

destroy-IsNested :
    (outer : Bool) (chain : Chain) (bs : List Bool)
    → IsNested outer chain bs
    → IsNested outer (destroy chain).1 (without_last bs)
unfolding IsNested destroy
destroy-IsNested outer [] [] n = tt
destroy-IsNested outer (i ∷ []) (b ∷ []) n = tt
destroy-IsNested outer (i ∷ j ∷ []) (b ∷ c ∷ []) (v, n) = (
  record {
    state = v.state;
    quiet = λ d. ap remove_inner (v.quiet d);
    linked = λ d. inners-remove i.waiters (v.linked d);
  },
  tt,
)
destroy-IsNested outer (i ∷ j ∷ k ∷ rest) (b ∷ c ∷ d ∷ bs) (v, n) =
    (rw (is_empty-destroy j k rest) v, destroy-IsNested (outer || b) (j ∷ k ∷ rest) (c ∷ d ∷ bs) n)
destroy-IsNested outer [] (b ∷ bs) n = absurd n
destroy-IsNested outer (i ∷ rest) [] n = absurd n
destroy-IsNested outer (i ∷ []) (b ∷ c ∷ bs) (v, n) = absurd n
destroy-IsNested outer (i ∷ j ∷ rest) (b ∷ []) (v, n) = absurd n
destroy-IsNested outer (i ∷ j ∷ []) (b ∷ c ∷ d ∷ bs) (v, (w, n)) = absurd n
destroy-IsNested outer (i ∷ j ∷ k ∷ rest) (b ∷ c ∷ []) (v, (w, n)) = absurd n

is_empty-add_wait : (cb k : ℕ) (chain : Chain) → is_empty (add_wait cb k chain).1 ≡ is_empty chain
unfolding add_wait
is_empty-add_wait cb k [] = refl
is_empty-add_wait cb zero (i ∷ rest) = elim (Bool-cases i.triggered) [
  | inl b ↦ rw b refl
  | inr b ↦ rw b refl
]
is_empty-add_wait cb (suc k) (i ∷ rest) = refl

add_wait-IsNested :
    (cb k : ℕ) (outer : Bool) (chain : Chain) (bs : List Bool)
    → IsNested outer chain bs
    → IsNested outer (add_wait cb k chain).1 bs
unfolding IsNested add_wait
add_wait-IsNested cb k outer [] [] n = tt
add_wait-IsNested cb zero outer (i ∷ rest) (b ∷ bs) (v, n) = elim (Bool-cases i.triggered) [
  | inl t ↦ rw t (record { state = sym t ∙ v.state; quiet = v.quiet; linked = v.linked }, n)
  | inr t ↦
      let open_ : (outer || b) ≡ false = sym v.state ∙ t in
      rw t (
        record {
          state = sym t ∙ v.state;
          quiet = λ d. cc;
          linked = λ d. inners-callback cb i.waiters ∙ v.linked d;
        },
        n,
      )
]
add_wait-IsNested cb (suc k) outer (i ∷ rest) (b ∷ bs) (v, n) =
    (rw (is_empty-add_wait cb k rest) v, add_wait-IsNested cb k (outer || b) rest bs n)
add_wait-IsNested cb k outer [] (b ∷ bs) n = absurd n
add_wait-IsNested cb k outer (i ∷ rest) [] n = absurd n

is_empty-remove_wait :
    (cb k : ℕ) (chain : Chain) → is_empty (remove_wait cb k chain) ≡ is_empty chain
unfolding remove_wait
is_empty-remove_wait cb k [] = refl
is_empty-remove_wait cb zero (i ∷ rest) = refl
is_empty-remove_wait cb (suc k) (i ∷ rest) = refl

remove_wait-IsNested :
    (cb k : ℕ) (outer : Bool) (chain : Chain) (bs : List Bool)
    → IsNested outer chain bs
    → IsNested outer (remove_wait cb k chain) bs
unfolding IsNested remove_wait
remove_wait-IsNested cb k outer [] [] n = tt
remove_wait-IsNested cb zero outer (i ∷ rest) (b ∷ bs) (v, n) = (
  record {
    state = v.state;
    quiet = λ d. ap (without cb) (v.quiet d);
    linked = λ d. inners-without cb i.waiters ∙ v.linked d;
  },
  n,
)
remove_wait-IsNested cb (suc k) outer (i ∷ rest) (b ∷ bs) (v, n) =
    (rw (is_empty-remove_wait cb k rest) v, remove_wait-IsNested cb k (outer || b) rest bs n)
remove_wait-IsNested cb k outer [] (b ∷ bs) n = absurd n
remove_wait-IsNested cb k outer (i ∷ rest) [] n = absurd n

-- Whether the object of each interruptor has completed, and the interruptors, the outermost first
pub data Reach : List Bool → Chain → Type 0 where
  start : Reach [] []
  creates :
      {bs : List Bool} {chain : Chain}
      → (done : Bool) → Reach bs chain
      → Reach (bs ++ done ∷ []) (create done chain)
  completes :
      {bs : List Bool} {chain : Chain} (result : WaitResult) (k : ℕ) (told : Told)
      → Reach bs chain
      → wait_done result k chain ≡ ok told
      → Reach (complete k bs) told.1
  destroys :
      {bs : List Bool} {chain : Chain} → Reach bs chain → Reach (without_last bs) (destroy chain).1
  waits :
      {bs : List Bool} {chain : Chain}
      → (cb k : ℕ) → Reach bs chain
      → Reach bs (add_wait cb k chain).1
  leaves :
      {bs : List Bool} {chain : Chain}
      → (cb k : ℕ) → Reach bs chain
      → Reach bs (remove_wait cb k chain)

wait_done-handle_at :
    (result : WaitResult) (k : ℕ) (chain : Chain) (told : Told)
    → wait_done result k chain ≡ ok told
    → handle_at k chain ≡ told
unfolding wait_done
wait_done-handle_at success k chain told e = ok-injective e
wait_done-handle_at interrupted k chain told e = cc
wait_done-handle_at object_lost k chain told e = cc

-- In any order of the calls, an interruptor is triggered just when its own object or that of one around it has
-- completed; nobody waits on a triggered one; and the next inner one waits once on one that is not.
pub Reach-IsNested : {bs : List Bool} {chain : Chain} → Reach bs chain → IsNested false chain bs
unfolding IsNested
Reach-IsNested start = tt
Reach-IsNested (creates done r) = create-IsNested done _ _ (Reach-IsNested r)
Reach-IsNested (completes {bs} {chain} result k told r e) =
    subst (λ d. IsNested false d.1 (complete k bs)) (wait_done-handle_at result k chain told e)
      (handle_at-IsNested k false chain bs (Reach-IsNested r))
Reach-IsNested (destroys r) = destroy-IsNested false _ _ (Reach-IsNested r)
Reach-IsNested (waits cb k r) = add_wait-IsNested cb k false _ _ (Reach-IsNested r)
Reach-IsNested (leaves cb k r) = remove_wait-IsNested cb k false _ _ (Reach-IsNested r)
