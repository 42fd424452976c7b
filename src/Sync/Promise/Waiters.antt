-- ===== src/Sync/Promise/Waiters.antt =====
-- src/sync/promise.tcc: who waits on the futures of a promise, and what the waiters are told.
use indecorous.Base.{
  ℕ, ◌≡◌, ◌⊎◌, inl, inr, refl, Bool, true, false, Bool-cases, ◌||◌, if◌then◌else◌, List, [], ◌∷◌,
  ◌++◌, Among, first, later, Among-append_right, ok, err, some, guarantee, require-eq-ok,
  ok-injective, not, subst, arith,
}
use indecorous.Sync.WaitObject.{success, object_lost}
use indecorous.Sync.Promise.{
  State, unfulfilled, released, fulfilled, Future, Deed, told, PromiseData, create, is_unfulfilled,
  has, is_released, cref, tell_waiters, tell_futures, cleared, notify, handle_chains, notify_by,
  notify_all, assign, release, add_future, without, take_out, remove_future, abandon,
  reassign_futures, update, add_wait, remove_wait, at_once, chained, then_ref, then_release,
}
use indecorous.Sync.Promise.Moved.{
  Step, assigns, abandons, adds, drops, waits, stops, takes, thens, then_takes, takes_at_once,
  gains, Reach, start, next, waiting, State-cases, after_moves-released,
}

waiting-cleared : (fs : List Future) → waiting (cleared fs) ≡ []
waiting-cleared [] = refl
waiting-cleared (f ∷ fs) = waiting-cleared fs

append-nil_left : (xs ys : List ℕ) → xs ++ ys ≡ [] → (xs ≡ []) × (ys ≡ [])
append-nil_left [] ys h = (refl, h)
append-nil_left (x ∷ xs) ys h = cc

waiting-without : (id : ℕ) (fs : List Future) → waiting fs ≡ [] → waiting (without id fs) ≡ []
waiting-without id [] h = refl
waiting-without id (f ∷ fs) h =
    let (mine, rest) = append-nil_left f.waiters (waiting fs) h in
    ground (arith, mine, rest, waiting-without id fs rest)

waiting-take_out :
    (id cb : ℕ) (fs : List Future)
    → waiting fs ≡ []
    → waiting (update id (λ f. record f { waiters = take_out cb f.waiters }) fs) ≡ []
waiting-take_out id cb [] h = refl
waiting-take_out id cb (f ∷ fs) h =
    let (mine, rest) = append-nil_left f.waiters (waiting fs) h in
    ground (arith, mine, rest, waiting-take_out id cb fs rest)

waiting-add :
    (id : ℕ) (fs : List Future)
    → waiting fs ≡ []
    → waiting (fs ++ record { id = id; waiters = [] } ∷ []) ≡ []
waiting-add id [] h = refl
waiting-add id (f ∷ fs) h =
    let (mine, rest) = append-nil_left f.waiters (waiting fs) h in
    rw (mine, waiting-add id fs rest) refl

or-false : (a b : Bool) → (a || b) ≡ false → (a ≡ false) × (b ≡ false)
or-false false b h = (refl, h)
or-false true b h = cc

module _ (A : Type 0) where
  tell_waiters-append :
      (xs ys : List ℕ)
      → tell_waiters {A = A} success (xs ++ ys) ≡ tell_waiters success xs ++ tell_waiters success ys
  tell_waiters-append [] ys = refl
  tell_waiters-append (x ∷ xs) ys = rw (tell_waiters-append xs ys) refl

  tell_futures-eq :
      (fs : List Future) → tell_futures {A = A} success fs ≡ tell_waiters success (waiting fs)
  tell_futures-eq [] = refl
  tell_futures-eq (f ∷ fs) =
      rw (tell_waiters-append f.waiters (waiting fs), tell_futures-eq fs) refl

  Among-tell_waiters :
      (cb : ℕ) (cbs : List ℕ)
      → Among cb cbs
      → Among {A = Deed A} (told cb success) (tell_waiters success cbs)
  Among-tell_waiters cb [] a = elim a [ ]
  Among-tell_waiters cb (x ∷ xs) first = first
  Among-tell_waiters cb (x ∷ xs) (later a) = later (Among-tell_waiters cb xs a)

module _ {A : Type 0} where
  State-idle : (s : State A) → has s ≡ false → is_released s ≡ false → s ≡ unfulfilled
  State-idle unfulfilled h k = refl
  State-idle released h k = cc
  State-idle (fulfilled value) h k = cc

  -- Either the value may still come, or nobody waits.
  pub data IsAnswered (p : PromiseData A) : Type 0 where
    pending : p.state ≡ unfulfilled → p.abandoned ≡ false → IsAnswered p
    done : waiting p.futures ≡ [] → IsAnswered p

  if-IsAnswered :
      (b : Bool) (p : PromiseData A)
      → p.state ≡ unfulfilled
      → p.abandoned ≡ b
      → IsAnswered (if b then notify object_lost p else p)
  unfolding notify
  if-IsAnswered true p e a = done (waiting-cleared p.futures)
  if-IsAnswered false p e a = pending e a

  notify_by-IsAnswered :
      (s : State A) (p : PromiseData A) → p.state ≡ s → IsAnswered (notify_by s p)
  unfolding notify handle_chains
  notify_by-IsAnswered (fulfilled value) p e = done (waiting-cleared p.futures)
  notify_by-IsAnswered released p e = done (waiting-cleared p.futures)
  notify_by-IsAnswered unfulfilled p e = if-IsAnswered p.abandoned p e refl

  notify_all-IsAnswered : (p : PromiseData A) → IsAnswered (notify_all p)
  unfolding notify_all
  notify_all-IsAnswered p = notify_by-IsAnswered p.state p refl

  -- A call that leaves the state alone, and the waiters if there are none.
  kept-IsAnswered :
      (p t : PromiseData A)
      → t.state ≡ p.state
      → t.abandoned ≡ p.abandoned
      → (waiting p.futures ≡ [] → waiting t.futures ≡ [])
      → IsAnswered p
      → IsAnswered t
  kept-IsAnswered p t e a f (pending u b) = pending (cc (e, u)) (cc (a, b))
  kept-IsAnswered p t e a f (done w) = done (f w)

  -- A call that moves the value out.
  taken-IsAnswered :
      (value : A) (p t : PromiseData A)
      → p.state ≡ fulfilled value
      → t.futures ≡ p.futures
      → IsAnswered p
      → IsAnswered t
  taken-IsAnswered value p t e f (pending u b) = cc
  taken-IsAnswered value p t e f (done w) = done (cc (f, w))

  add_wait-IsAnswered :
      (id cb : ℕ) (p : PromiseData A) → IsAnswered p → IsAnswered (add_wait id cb p)
  unfolding add_wait
  add_wait-IsAnswered id cb p v = elim (Bool-cases (has p.state)) [
    | inl e ↦ rw e (kept-IsAnswered p _ refl refl (λ w. w) v)
    | inr e ↦ elim (Bool-cases (p.abandoned || is_released p.state)) [
      | inl b ↦ rw (e, b) (kept-IsAnswered p _ refl refl (λ w. w) v)
      | inr b ↦
          rw (e, b)
            (let (a, r) = or-false p.abandoned (is_released p.state) b in
              pending (State-idle p.state e r) a)
    ]
  ]

  then_ref-IsAnswered :
      (c : ℕ) (p t : PromiseData A) → IsAnswered p → then_ref c p ≡ chained t → IsAnswered t
  unfolding then_ref
  then_ref-IsAnswered c p t v h = elim (State-cases p.state) [
    | inl e ↦ elim (Bool-cases p.abandoned) [
      | inl b ↦ cc (rw (e, b) at h)
      | inr b ↦ let h' = rw (e, b) at h in pending (cc) (cc)
    ]
    | inr (inl e) ↦ cc (rw e at h)
    | inr (inr (w, e)) ↦ cc (rw e at h)
  ]

  then_release-IsAnswered :
      (c : ℕ) (p t : PromiseData A)
      → IsAnswered p
      → (then_release c p ≡ chained t) ⊎ ((value : A) × (then_release c p ≡ at_once value t))
      → IsAnswered t
  unfolding then_release
  then_release-IsAnswered c p t v (inl h) = elim (State-cases p.state) [
    | inl e ↦ elim (Bool-cases p.abandoned) [
      | inl b ↦ cc (rw (e, b) at h)
      | inr b ↦ let h' = rw (e, b) at h in pending (cc) (cc)
    ]
    | inr (inl e) ↦ cc (rw e at h)
    | inr (inr (w, e)) ↦ cc (rw e at h)
  ]
  then_release-IsAnswered c p t v (inr (value, h)) = elim (State-cases p.state) [
    | inl e ↦ elim (Bool-cases p.abandoned) [
      | inl b ↦ cc (rw (e, b) at h)
      | inr b ↦ cc (rw (e, b) at h)
    ]
    | inr (inl e) ↦ cc (rw e at h)
    | inr (inr (w, e)) ↦ let h' = rw e at h in taken-IsAnswered w p t e (cc) v
  ]

  release-IsAnswered :
      (value : A) (p t : PromiseData A)
      → IsAnswered p
      → release p ≡ ok (some (value, t))
      → IsAnswered t
  unfolding release
  release-IsAnswered value p t v h = elim (State-cases p.state) [
    | inl e ↦ cc (rw e at h)
    | inr (inl e) ↦ cc (rw e at h)
    | inr (inr (w, e)) ↦ let h' = rw e at h in taken-IsAnswered w p t e (cc) v
  ]

  assign-IsAnswered : (value : A) (p t : PromiseData A) → assign value p ≡ ok t → IsAnswered t
  unfolding assign
  assign-IsAnswered value p t h =
      let (idle, h') = require-eq-ok guarantee (is_unfulfilled p.state) _ h in
      subst IsAnswered (ok-injective h') (notify_all-IsAnswered _)

  abandon-IsAnswered : (p t : PromiseData A) (dead : Bool) → abandon p ≡ ok (t, dead) → IsAnswered t
  unfolding abandon
  abandon-IsAnswered p t dead h =
      let (idle, h') = require-eq-ok guarantee (not p.abandoned) _ h in
      let same : notify_all (record p { abandoned = true }) ≡ t = cc in
      subst IsAnswered same (notify_all-IsAnswered _)

  Step-IsAnswered : (p t : PromiseData A) → IsAnswered p → Step p t → IsAnswered t
  unfolding add_future remove_future remove_wait reassign_futures
  Step-IsAnswered p t v (assigns value h) = assign-IsAnswered value p t h
  Step-IsAnswered p t v (abandons dead h) = abandon-IsAnswered p t dead h
  Step-IsAnswered p t v (adds id h) =
      rw h (kept-IsAnswered p _ refl refl (waiting-add id p.futures) v)
  Step-IsAnswered p t v (drops id h) =
      rw h (kept-IsAnswered p _ refl refl (waiting-without id p.futures) v)
  Step-IsAnswered p t v (waits id cb h) = rw h (add_wait-IsAnswered id cb p v)
  Step-IsAnswered p t v (stops id cb h) =
      rw h (kept-IsAnswered p _ refl refl (waiting-take_out id cb p.futures) v)
  Step-IsAnswered p t v (takes value h) = release-IsAnswered value p t v h
  Step-IsAnswered p t v (thens c h) = then_ref-IsAnswered c p t v h
  Step-IsAnswered p t v (then_takes c h) = then_release-IsAnswered c p t v (inl h)
  Step-IsAnswered p t v (takes_at_once c value h) = then_release-IsAnswered c p t v (inr (value, h))
  Step-IsAnswered p t v (gains q h) = rw h (notify_all-IsAnswered _)

  -- In every reachable state of a promise, either it has no value yet and is not abandoned, or no future of
  -- it has a waiter: nobody is left waiting for a value that came, was taken, or will not come.
  pub Reach-IsAnswered : (p : PromiseData A) → Reach p → IsAnswered p
  unfolding create
  Reach-IsAnswered p start = pending refl refl
  Reach-IsAnswered t (next {p} r s) = Step-IsAnswered p t (Reach-IsAnswered p r) s

  -- A promise without a value that has a callback chained by `then_release`: the assignment moves the value
  -- to that callback and yet tells every waiter of a future `success`, and `cref`, which `get` and `copy`
  -- call after a successful wait, fails its GUARANTEE.
  pub assign-tells_taken :
      (value : A) (p : PromiseData A) (c cb : ℕ) (cs : List ℕ)
      → p.state ≡ unfulfilled
      → p.move_chain ≡ c ∷ cs
      → Among cb (waiting p.futures)
      → (t : PromiseData A) × ((assign value p ≡ ok t)
          × (Among (told cb success) t.log × (cref t ≡ err guarantee)))
  unfolding assign notify_all handle_chains notify cref
  assign-tells_taken value p c cb cs e m a = (
    notify_all (record p { state = fulfilled value }),
    (
      rw e refl,
      (
        Among-append_right (handle_chains value (record p { state = fulfilled value })).log
            {ys = tell_futures success p.futures}
            (rw (tell_futures-eq A p.futures) (Among-tell_waiters A cb (waiting p.futures) a)),
        rw (m, after_moves-released cs) refl,
      ),
    ),
  )
